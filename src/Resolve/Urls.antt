-- ===== src/Resolve/Urls.antt =====
-- `rewriteRelativeFileUrls`, `resolveProviderId` and the paths of configurations.
pub mod Target
pub mod Refuses
pub mod Moved
use promptfoo_eval_harness.Prelude.{
  ℕ, Bool, true, false, ◌||◌, List, [], ◌∷◌, ◌++◌, Str, lit, is_empty, ◌==◌, any, starts_with,
  if◌then◌else◌, Option, none, some, Result, ok, err, ◌>>=◌, ◌>>◌,
}
use promptfoo_eval_harness.Paths.{
  is_absolute, resolve, resolve_root, ensure_within_root, resolve_within_root,
}
use promptfoo_eval_harness.Paths.Relative.{relative, join_below}
use promptfoo_eval_harness.Js.{
  Value, undefined, null, bool, num, str, arr, obj, Items, nil, cons, Fields, end, field,
}
use promptfoo_eval_harness.Resolve.{
  Roots, tmp_root, Error, reference_outside_root, config_outside_root, write_outside_root,
  output_outside_root,
}

-- `s.slice(prefix.length)`, where `s` starts with `prefix`.
unfoldable pub after : Str → Str → Str
after [] s = s
after (p ∷ prefix) [] = []
after (p ∷ prefix) (c ∷ s) = after prefix s

abbrev pub file_scheme : Str
file_scheme = lit "file://"

abbrev pub framework_scheme : Str
framework_scheme = lit "framework://"

-- The text up to the first colon, and the rest from there on.
unfoldable pub split_colon : Str → Str × Str
split_colon [] = ([], [])
split_colon (c ∷ s) =
    let (file, suffix) = split_colon s in if c == 58 then ([], c ∷ s) else (c ∷ file, suffix)

-- What `.` does not match.
abbrev is_line_end : ℕ → Bool
is_line_end c = c == 10 || c == 13 || c == 8232 || c == 8233

-- The groups of `/^file:\/\/([^:]+)(:.*)?$/`, the second one empty where it takes no part.
unfoldable pub match_file_url : Str → Option (Str × Str)
unfolding split_colon
match_file_url s =
    let (file, suffix) = split_colon (after file_scheme s) in
    if starts_with s file_scheme
    then if is_empty file || any is_line_end suffix then none else some (file, suffix)
    else none

module _ (eval_root source_config_dir target_config_dir : Str) where
  unfoldable pub move : Str → Str × Str → Result Error Str
  move url (file, suffix) =
      let absolute_target = resolve source_config_dir file in
      if is_absolute file
      then ok url
      else (ensure_within_root absolute_target eval_root (reference_outside_root url)
          >> ok (file_scheme ++ (relative target_config_dir absolute_target ++ suffix)))

  -- The branch for a text.
  unfoldable pub rewrite_url : Str → Result Error Str
  unfolding move
  rewrite_url s = elim (match_file_url s) [ none ↦ ok s | some groups ↦ move s groups ]

  unfoldable mutual
    pub rewrite_relative_file_urls : Value → Result Error Value
    rewrite_relative_file_urls undefined = ok undefined
    rewrite_relative_file_urls null = ok null
    rewrite_relative_file_urls (bool b) = ok (bool b)
    rewrite_relative_file_urls (num n) = ok (num n)
    rewrite_relative_file_urls (str s) = rewrite_url s >>= λ t. ok (str t)
    rewrite_relative_file_urls (arr vs) = rewrite_items vs >>= λ ws. ok (arr ws)
    rewrite_relative_file_urls (obj fs) = rewrite_fields fs >>= λ gs. ok (obj gs)

    pub rewrite_items : Items → Result Error Items
    rewrite_items nil = ok nil
    rewrite_items (cons v vs) = do
      w ← rewrite_relative_file_urls v
      ws ← rewrite_items vs
      ok (cons w ws)

    pub rewrite_fields : Fields → Result Error Fields
    rewrite_fields end = ok end
    rewrite_fields (field k v fs) = do
      w ← rewrite_relative_file_urls v
      gs ← rewrite_fields fs
      ok (field k w gs)

unfoldable pub resolve_provider_id : Roots → Str → Str
resolve_provider_id roots id =
    if starts_with id framework_scheme
    then file_scheme ++ join_below (roots.framework_root) (after framework_scheme id)
    else if starts_with id file_scheme
    then if is_absolute (after file_scheme id)
      then id
      else file_scheme ++ join_below (roots.eval_root) (after file_scheme id)
    else id

unfoldable pub normalize_config_path : Str → Str → Result Error Str
normalize_config_path eval_root path = do
  resolved ← resolve_within_root eval_root path eval_root (config_outside_root path)
  ok (relative eval_root resolved)

-- `path.resolve(outputRoot)` is taken from the working directory.
unfoldable pub normalize_output_root : Roots → Str → Str → Result Error Str
normalize_output_root roots cwd output_root = do
  let resolved = resolve cwd output_root
  ensure_within_root resolved (tmp_root roots)
      (output_outside_root (relative (roots.eval_root) (tmp_root roots)))
  ok resolved
