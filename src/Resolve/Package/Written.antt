-- ===== src/Resolve/Package/Written.antt =====
-- Where a resolved configuration is written.
use promptfoo_eval_harness.Prelude.{
  ◌≡◌, refl, ap, ◌∙◌, subst, true, ◌⊎◌, inl, inr, List, [], arith, Str, All, Option, Bool-cases,
  Result, ok, err, >>=-returned, err-ne-ok, ok-injective,
}
use promptfoo_eval_harness.Paths.{
  resolve, resolve_root, is_within, ensure_within_root, resolve_within_root,
}
use promptfoo_eval_harness.Js.{Value}
use promptfoo_eval_harness.Resolve.{Roots, tmp_root}
use promptfoo_eval_harness.Resolve
use promptfoo_eval_harness.Resolve.Urls.{normalize_config_path, normalize_output_root}
use promptfoo_eval_harness.Resolve.Blocks.{Error}
use promptfoo_eval_harness.Resolve.Package.{
  Effect, make_directory, write_file, Readers, output_path, store, stored, write_at, targets,
  resolve_config_file, write_resolved_config, or_path_error,
}

-- A file is written to the directory given or below it.
abbrev pub WritesBelow : Str → Effect → Type 0
WritesBelow root (make_directory path) = Unit
WritesBelow root (write_file path v) = is_within path (resolve_root root) ≡ true

abbrev pub effects_of {ℓ κ} : {A : Type ℓ} {B : Type κ} → (List Effect × A) × B → List Effect
effects_of ((effects, a), b) = effects

normalize_output_root-within :
    (roots : Roots) (cwd output_root root : Str)
    → normalize_output_root roots cwd output_root ≡ ok root
    → (root ≡ resolve cwd output_root) × (is_within root (resolve_root (tmp_root roots)) ≡ true)
unfolding normalize_output_root ensure_within_root
normalize_output_root-within roots cwd output_root root h =
    elim (Bool-cases (is_within (resolve cwd output_root) (resolve_root (tmp_root roots)))) [
      | inl inside ↦ ground arith
      | inr outside ↦ ground arith
    ]

or_path_error-ok {ℓ} :
    {A : Type ℓ} (r : Result Resolve.Error A) (a : A) → or_path_error r ≡ ok a → r ≡ ok a
or_path_error-ok (ok b) a h = ap ok (ok-injective h)
or_path_error-ok (err e) a h = elim (err-ne-ok h) [ ]

module _ (roots : Roots) (readers : Readers) where
  output_path-within :
      (root normalized path : Str)
      → output_path roots readers root normalized ≡ ok path
      → is_within path (resolve_root root) ≡ true
  unfolding output_path resolve_within_root
  output_path-within root normalized path h =
      elim (Bool-cases (is_within (resolve root normalized) (resolve_root root))) [
        | inl inside ↦ ground arith
        | inr outside ↦ ground arith
      ]

  store-WritesBelow :
      (root : Str) (v : Value) (r : Result Error Str)
      → ((path : Str) → r ≡ ok path → is_within path (resolve_root root) ≡ true)
      → All (WritesBelow root) (store roots readers v r).0
  unfolding store
  store-WritesBelow root v (err e) h = tt
  store-WritesBelow root v (ok path) h = (tt, (h path refl, tt))

  stored-WritesBelow :
      (root normalized : Str) (r : Result Error Value × Option Str)
      → All (WritesBelow root) (effects_of (stored roots readers root normalized r))
  unfolding stored
  stored-WritesBelow root normalized (err e, cache) = (tt, tt)
  stored-WritesBelow root normalized (ok v, cache) =
      (tt, store-WritesBelow root v _ (output_path-within root normalized))

  targets-within :
      (cwd output_root path root normalized : Str)
      → targets roots readers cwd output_root path ≡ ok (root, normalized)
      → (root ≡ resolve cwd output_root) × (is_within root (resolve_root (tmp_root roots)) ≡ true)
  unfolding targets
  targets-within cwd output_root path root normalized h =
      let (name, e, g) =
        >>=-returned (or_path_error (normalize_config_path (roots.eval_root) path)) _ h in
      let (other, f, k) =
        >>=-returned (or_path_error (normalize_output_root roots cwd output_root)) _ g in
      let same : other ≡ root = ap (λ p. p.0) (ok-injective k) in
      normalize_output_root-within roots cwd output_root root
        (or_path_error-ok (normalize_output_root roots cwd output_root) root (f ∙ ap ok same))

  write_at-WritesBelow :
      (root : Str) (cache : Option Str) (r : Result Error (Str × Str))
      → ((made normalized : Str)
          → r ≡ ok (made, normalized)
          → (made ≡ root) × (is_within made (resolve_root (tmp_root roots)) ≡ true))
      → let effects = effects_of (write_at roots readers cache r) in
        All (WritesBelow root) effects
        × ((effects ≡ []) ⊎ (is_within root (resolve_root (tmp_root roots)) ≡ true))
  unfolding write_at
  write_at-WritesBelow root cache (err e) h = (tt, inl refl)
  write_at-WritesBelow root cache (ok (made, normalized)) h =
      let (same, inside) = h made normalized refl in
      let r = resolve_config_file roots readers normalized cache in
      (
        subst (λ d. All (WritesBelow d) (effects_of (stored roots readers made normalized r))) same
            (stored-WritesBelow made normalized r),
        inr (subst (λ d. is_within d (resolve_root (tmp_root roots)) ≡ true) same inside),
      )

  -- Whatever is asked for and whatever is read, a file is written only below the directory that was
  -- asked for, and nothing is done at all unless that directory is the temporary root or lies
  -- below it.
  pub write_resolved_config-WritesBelow :
      (cwd output_root path : Str) (cache : Option Str)
      → let effects = effects_of (write_resolved_config roots readers cwd output_root path cache) in
        All (WritesBelow (resolve cwd output_root)) effects
        × ((effects ≡ [])
            ⊎ (is_within (resolve cwd output_root) (resolve_root (tmp_root roots)) ≡ true))
  unfolding write_resolved_config
  write_resolved_config-WritesBelow cwd output_root path cache =
      write_at-WritesBelow (resolve cwd output_root) cache
        (targets roots readers cwd output_root path) (targets-within cwd output_root path)
