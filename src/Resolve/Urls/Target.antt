-- ===== src/Resolve/Urls/Target.antt =====
-- Where a reference that moved leads, and how references and paths are refused.

use promptfoo_eval_harness.Prelude.{
  ◌≡◌, ap, ◌∙◌, sym, true, false, ◌++◌, arith, Str, Bool-cases, inl, inr, ◌↔◌, some, Result, ok,
  err, >>=-returned, ok-injective, err-ne-ok,
}
use promptfoo_eval_harness.Paths.{
  is_absolute, resolve, resolve_root, is_within, ensure_within_root, resolve_within_root,
}
use promptfoo_eval_harness.Paths.Relative.{relative}
use promptfoo_eval_harness.Paths.Relative.Inverse.{resolve-relative-resolve}
use promptfoo_eval_harness.Resolve.{Error, config_outside_root, reference_outside_root}
use promptfoo_eval_harness.Resolve.Urls.{
  file_scheme, match_file_url, move, rewrite_url, normalize_config_path,
}

move-target :
    (root source target url file suffix out : Str)
    → is_absolute file ≡ false
    → move root source target url (file, suffix) ≡ ok out
    → (path : Str) × (out ≡ file_scheme ++ (path ++ suffix))
      × (resolve target path ≡ resolve source file)
      × (is_within (resolve source file) (resolve_root root) ≡ true)
unfolding move ensure_within_root
move-target root source target url file suffix out rel h =
    elim (Bool-cases (is_within (resolve source file) (resolve_root root))) [
      | inl inside ↦
          let k : ◌≡◌ {A = Result Error Str}
              (ok (file_scheme ++ (relative target (resolve source file) ++ suffix))) (ok out) =
            rw (rel, inside) at h in
          (
            relative target (resolve source file),
            sym (ok-injective k),
            resolve-relative-resolve target source file,
            inside,
          )
      | inr outside ↦
          let k : ◌≡◌ {A = Result Error Str} (err (reference_outside_root url)) (ok out) =
            rw (rel, outside) at h in
          elim (err-ne-ok k) [ ]
    ]

-- A reference by a relative path that is rewritten keeps its suffix, and its new path, taken from
-- the directory of the resolved configuration, leads to the file that the old one, taken from the
-- directory of the source, leads to; that file is the evaluation root or lies below it.
pub rewrite_url-target :
    (root source target url file suffix out : Str)
    → match_file_url url ≡ some (file, suffix)
    → is_absolute file ≡ false
    → rewrite_url root source target url ≡ ok out
    → (path : Str) × (out ≡ file_scheme ++ (path ++ suffix))
      × (resolve target path ≡ resolve source file)
      × (is_within (resolve source file) (resolve_root root) ≡ true)
unfolding rewrite_url
rewrite_url-target root source target url file suffix out m rel h =
    move-target root source target url file suffix out rel (rw (rewrite_url, m) at h)

resolve_within_root_iff :
    (root path resolved : Str) (refusal : Error)
    → (resolve_within_root root path root refusal ≡ ok resolved) ↔ (
        (is_within (resolve root path) (resolve_root root) ≡ true) × (resolve root path ≡ resolved))
unfolding resolve_within_root
resolve_within_root_iff root path resolved refusal = ground arith

-- Normalising the path of a configuration twice is normalising it once.
pub normalize_config_path_idempotent :
    (root path p : Str)
    → normalize_config_path root path ≡ ok p
    → normalize_config_path root p ≡ ok p
unfolding normalize_config_path
normalize_config_path_idempotent root path p h =
    let (resolved, passed, e) = >>=-returned (resolve_within_root root path root _) _ h in
    let (inside, same) = (resolve_within_root_iff root path resolved _).0 passed in
    let back : resolve root p ≡ resolve root path =
      ap (resolve root) (sym (ok-injective e) ∙ ap (relative root) (sym same))
      ∙ resolve-relative-resolve root root path in
    rw
      ((resolve_within_root_iff root p resolved (config_outside_root p)).1 (rw back (inside, same)))
      e
