-- ===== src/Guard/Argv.antt =====
-- The command line: one Promptfoo invocation per `-c`, resolved configurations, and the default
-- concurrency.
pub mod Laws
use promptfoo_eval_harness.Prelude.{
  Bool, true, false, not, ◌&&◌, ◌||◌, List, [], ◌∷◌, ◌++◌, map, Str, lit, str_eq, is_empty,
  if◌then◌else◌, any, starts_with, ends_with, Result, ok, err, ◌>>=◌,
}

pub data Error : Type 0 where
  missing_config_path : Error
  write_failed : Str → Error

-- The loop of `splitPromptfooInvocations`, with `sharedArgs` and `configArgs`.
unfoldable pub split_from : List Str → List Str → List Str → Result Error (List Str × List Str)
split_from shared configs [] = ok (shared, configs)
split_from shared configs (token ∷ []) =
    if str_eq token (lit "-c") then err missing_config_path else ok (shared ++ token ∷ [], configs)
split_from shared configs (token ∷ next ∷ rest) =
    let with_config = split_from shared (configs ++ next ∷ []) rest in
    let plain = split_from (shared ++ token ∷ []) configs (next ∷ rest) in
    if str_eq token (lit "-c")
    then if is_empty next then err missing_config_path else with_config
    else plain

abbrev pub invocation : List Str → Str → List Str
invocation shared config = shared ++ (lit "-c" ∷ config ∷ [])

abbrev pub invocations : List Str → List Str → List (List Str)
invocations shared [] = shared ∷ []
invocations shared (c ∷ configs) = map (invocation shared) (c ∷ configs)

unfoldable pub split_promptfoo_invocations : List Str → Result Error (List (List Str))
split_promptfoo_invocations argv = do
  (shared, configs) ← split_from [] [] argv
  ok (invocations shared configs)

unfoldable pub should_materialize_config : Str → Bool
should_materialize_config path =
    if is_empty path || starts_with path (lit ".tmp/resolved-configs/")
    then false
    else ends_with path (lit ".yaml") || ends_with path (lit ".yml") || ends_with path (lit ".json")

-- `write` is `writeResolvedConfig`, which returns the path that it wrote or throws.
module _ (write : Str → Result Error Str) where
  unfoldable pub resolve_config : Str → Result Error Str
  resolve_config path = if should_materialize_config path then write path else ok path

  -- The loop of `materializeInvocation`, with `next`.
  unfoldable pub materialize_from : List Str → List Str → Result Error (List Str)
  materialize_from done [] = ok done
  materialize_from done (token ∷ []) =
      if str_eq token (lit "-c") then err missing_config_path else ok (done ++ token ∷ [])
  materialize_from done (token ∷ next ∷ rest) =
      let plain = materialize_from (done ++ token ∷ []) (next ∷ rest) in
      let resolved = λ (config : Str). materialize_from (done ++ (lit "-c" ∷ config ∷ [])) rest in
      if str_eq token (lit "-c")
      then if is_empty next then err missing_config_path else (resolve_config next >>= resolved)
      else plain

  unfoldable pub materialize_invocation : List Str → Result Error (List Str)
  materialize_invocation argv = materialize_from [] argv

abbrev pub is_concurrency : Str → Bool
is_concurrency token =
    str_eq token (lit "--max-concurrency") || starts_with token (lit "--max-concurrency=")

-- `argv[0]` is undefined on an empty command line, and no `eval`.
unfoldable pub apply_default_eval_concurrency : List Str → List Str
apply_default_eval_concurrency [] = []
apply_default_eval_concurrency (token ∷ rest) =
    if not (str_eq token (lit "eval")) || any is_concurrency (token ∷ rest)
    then token ∷ rest
    else lit "eval" ∷ lit "--max-concurrency" ∷ lit "4" ∷ rest
