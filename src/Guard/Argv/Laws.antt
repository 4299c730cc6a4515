-- ===== src/Guard/Argv/Laws.antt =====
-- What the invocations of one command line look like.
use promptfoo_eval_harness.Prelude.{
  ◌≤◌, ◌≡◌, ◌⊎◌, inl, inr, true, starts_with, ends_with, refl, sym, subst, ◌∙◌, ap, false, List, [],
  ◌∷◌, ◌++◌, map, arith, append-nil, append_assoc, Str, lit, str_eq, str_eq_refl, is_empty, All,
  All-append, Result, ok, err, ◌>>=◌, >>=-returned, length,
}
use promptfoo_eval_harness.Guard.Argv.{
  Error, split_from, invocation, invocations, split_promptfoo_invocations, resolve_config,
  should_materialize_config, materialize_from, materialize_invocation,
  apply_default_eval_concurrency,
}

abbrev pub IsShared : Str → Type 0
IsShared token = str_eq token (lit "-c") ≡ false

abbrev pub IsConfig : Str → Type 0
IsConfig path = is_empty path ≡ false

-- What has been collected holds no `-c` among the shared words and no empty path.
abbrev IsCollected : Result Error (List Str × List Str) → Type 0
IsCollected (ok (shared, configs)) = All IsShared shared × All IsConfig configs
IsCollected (err e) = Unit

split_from-IsCollected :
    (argv shared configs : List Str)
    → All IsShared shared
    → All IsConfig configs
    → IsCollected (split_from shared configs argv)
unfolding split_from
split_from-IsCollected [] shared configs h k = (h, k)
split_from-IsCollected (token ∷ []) shared configs h k =
    ground (arith, All-append IsShared shared (token ∷ []) h)
split_from-IsCollected (token ∷ next ∷ rest) shared configs h k = ground (
  arith,
  split_from-IsCollected rest shared (configs ++ next ∷ []) h,
  All-append IsConfig configs (next ∷ []) k,
  split_from-IsCollected (next ∷ rest) (shared ++ token ∷ []) configs,
  All-append IsShared shared (token ∷ []) h,
)

pub split_from-shared :
    (shared done configs rest : List Str)
    → All IsShared shared
    → split_from done configs (shared ++ rest) ≡ split_from (done ++ shared) configs rest
unfolding split_from
split_from-shared [] done configs rest h = rw append-nil
split_from-shared (s ∷ []) done configs [] h = ground arith
split_from-shared (s ∷ []) done configs (t ∷ rest) h = ground arith
split_from-shared (s ∷ t ∷ shared) done configs rest h = rw (h.0) (
    split_from-shared (t ∷ shared) (done ++ s ∷ []) configs rest h.1
    ∙ ap (λ d. split_from d configs rest) (append_assoc done (s ∷ []) (t ∷ shared)))

-- Splitting one of the invocations gives that invocation alone.
abbrev pub IsSingle : List Str → Type 0
IsSingle argv = split_promptfoo_invocations argv ≡ ok (argv ∷ [])

split_from-invocation :
    (shared : List Str) (config : Str)
    → All IsShared shared
    → IsConfig config
    → split_from [] [] (invocation shared config) ≡ ok (shared, config ∷ [])
unfolding split_from
split_from-invocation shared config h k =
    split_from-shared shared [] [] (lit "-c" ∷ config ∷ []) h ∙ rw (str_eq_refl (lit "-c"), k)

invocation-IsSingle :
    (shared : List Str) (config : Str)
    → All IsShared shared
    → IsConfig config
    → IsSingle (invocation shared config)
unfolding split_promptfoo_invocations
invocation-IsSingle shared config h k = rw (split_from-invocation shared config h k)

shared-IsSingle : (shared : List Str) → All IsShared shared → IsSingle shared
unfolding split_promptfoo_invocations split_from
shared-IsSingle shared h =
    let e : split_from [] [] shared ≡ ok (shared, []) =
      ap (split_from [] []) (sym (append-nil shared)) ∙ split_from-shared shared [] [] [] h in
    rw e

configs-IsSingle :
    (shared configs : List Str)
    → All IsShared shared
    → All IsConfig configs
    → All IsSingle (map (invocation shared) configs)
configs-IsSingle shared [] h k = tt
configs-IsSingle shared (c ∷ configs) h (k, ks) =
    (invocation-IsSingle shared c h k, configs-IsSingle shared configs h ks)

some_invocation : (shared configs : List Str) → 1 ≤ length (invocations shared configs)
some_invocation shared [] = omega arith
some_invocation shared (c ∷ configs) = omega arith

invocations-IsSingle :
    (shared configs : List Str)
    → All IsShared shared
    → All IsConfig configs
    → All IsSingle (invocations shared configs)
invocations-IsSingle shared [] h k = (shared-IsSingle shared h, tt)
invocations-IsSingle shared (c ∷ configs) h k = configs-IsSingle shared (c ∷ configs) h k

split_ok :
    (argv : List Str) (parts : List Str × List Str) (invs : List (List Str))
    → split_from [] [] argv ≡ ok parts
    → ◌≡◌ {A = Result Error (List (List Str))} (ok (invocations parts.0 parts.1)) (ok invs)
    → All IsSingle invs × (1 ≤ length invs)
split_ok argv (shared, configs) invs e f =
    let collected : All IsShared shared × All IsConfig configs =
      subst IsCollected e (split_from-IsCollected argv [] [] tt tt) in
    let same : invocations shared configs ≡ invs = cc in
    subst (λ is. All IsSingle is × (1 ≤ length is)) same
      (invocations-IsSingle shared configs collected.0 collected.1, some_invocation shared configs)

-- Where a command line splits, it splits into at least one invocation, and each of them is a
-- command line that splits into itself alone: it names one configuration or none.
pub split_promptfoo_invocations-IsSingle :
    (argv : List Str) (invs : List (List Str))
    → split_promptfoo_invocations argv ≡ ok invs
    → All IsSingle invs × (1 ≤ length invs)
unfolding split_promptfoo_invocations
split_promptfoo_invocations-IsSingle argv invs e =
    let (parts, found, rest) = >>=-returned (split_from [] [] argv) _ e in
    split_ok argv parts invs found rest

-- A YAML or JSON file that does not lie in the directory of the resolved configurations.
abbrev pub IsSource : Str → Type 0
IsSource path =
    (starts_with path (lit ".tmp/resolved-configs/") ≡ false)
    × ((ends_with path (lit ".yaml") ≡ true)
        ⊎ ((ends_with path (lit ".yml") ≡ true) ⊎ (ends_with path (lit ".json") ≡ true)))

module _ (write : Str → Result Error Str) where
  materialize_from-shared :
      (shared done rest : List Str)
      → All IsShared shared
      → materialize_from write done (shared ++ rest) ≡ materialize_from write (done ++ shared) rest
  unfolding materialize_from
  materialize_from-shared [] done rest h = rw append-nil
  materialize_from-shared (s ∷ []) done [] h = ground arith
  materialize_from-shared (s ∷ []) done (t ∷ rest) h = ground arith
  materialize_from-shared (s ∷ t ∷ shared) done rest h = rw (h.0) (
      materialize_from-shared (t ∷ shared) (done ++ s ∷ []) rest h.1
      ∙ ap (λ d. materialize_from write d rest) (append_assoc done (s ∷ []) (t ∷ shared)))

  resolve_config-IsSource :
      (path : Str)
      → IsConfig path
      → ((IsSource path × (resolve_config write path ≡ write path))
          ⊎ ((¬ IsSource path) × (resolve_config write path ≡ ok path)))
  unfolding resolve_config should_materialize_config
  resolve_config-IsSource path k = ground arith

  -- An invocation that names a configuration is materialised into one that differs from it in that
  -- configuration only. A YAML or JSON file that does not lie in the directory of the resolved
  -- configurations is written, and the path that the writer returns, or its failure, is what comes
  -- of it; any other path stays, and nothing is written.
  pub materialize_invocation-invocation :
      (shared : List Str) (config : Str)
      → All IsShared shared
      → IsConfig config
      → ((IsSource config
            × (materialize_invocation write (invocation shared config)
                ≡ (write config >>= λ path. ok (invocation shared path))))
          ⊎ ((¬ IsSource config)
              × (materialize_invocation write (invocation shared config)
                  ≡ ok (invocation shared config))))
  unfolding materialize_invocation materialize_from
  materialize_invocation-invocation shared config h k =
      let split : materialize_invocation write (invocation shared config)
          ≡ (resolve_config write config >>= λ path. ok (invocation shared path)) =
        materialize_from-shared shared [] (lit "-c" ∷ config ∷ []) h
        ∙ rw (str_eq_refl (lit "-c"), k) refl in
      elim (resolve_config-IsSource config k) [
        | inl (source, e) ↦ inl (source, rw e at split)
        | inr (other, e) ↦ inr (other, rw e at split)
      ]

-- Applying the default concurrency twice is applying it once.
pub apply_default_eval_concurrency_idempotent :
    (argv : List Str)
    → let once = apply_default_eval_concurrency argv in apply_default_eval_concurrency once ≡ once
unfolding apply_default_eval_concurrency
apply_default_eval_concurrency_idempotent [] = refl
apply_default_eval_concurrency_idempotent (t ∷ ts) =
    ground (arith, str_eq_refl (lit "eval"), str_eq_refl (lit "--max-concurrency"))
