-- ===== src/Resolve/Package/Kept.antt =====
-- What a resolved configuration keeps of the package's own.
use promptfoo_eval_harness.Prelude.{
  ◌≡◌, ap, subst, true, false, not, List, arith, Str, lit, str_eq, Option, Result, ok, err,
  >>=-returned, guard, guard_iff, ok-injective,
}
use promptfoo_eval_harness.Paths.Relative.{join_below, dirname}
use promptfoo_eval_harness.Js.{Value, get, lookup, entries, truthy, array}
use promptfoo_eval_harness.Resolve.{Roots, tmp_root}
use promptfoo_eval_harness.Resolve
use promptfoo_eval_harness.Resolve.Urls.{normalize_config_path, rewrite_relative_file_urls}
use promptfoo_eval_harness.Resolve.Urls.Target.{normalize_config_path_idempotent}
use promptfoo_eval_harness.Resolve.Urls.Moved.{Moved, rewrite_relative_file_urls-Moved}
use promptfoo_eval_harness.Resolve.Blocks.{own_providers, missing_eval_tier}
use promptfoo_eval_harness.Resolve.Package.{
  Readers, Prepared, prepare, read_yaml_below, or_path_error, resolve_config_file,
}
use promptfoo_eval_harness.Resolve.Package.Chosen.{resolve_config_file-Selects}

or_path_error-ok {ℓ} :
    {A : Type ℓ} (r : Result Resolve.Error A) (a : A) → or_path_error r ≡ ok a → r ≡ ok a
or_path_error-ok (ok b) a h = ap ok (ok-injective h)
or_path_error-ok (err e) a h = cc

module _ (roots : Roots) (readers : Readers) where
  -- The package's configuration is the file at a path below the evaluation root; it has no
  -- providers of its own and names a tier, and the second value is the first one with its
  -- references moved from the directory of that file to that of the resolved configuration.
  abbrev pub IsPrepared : Str → Value → Value → Type 0
  IsPrepared path parsed rewritten =
      (below : Str) × (normalize_config_path (roots.eval_root) path ≡ ok below)
      × (readers.read_yaml (join_below (roots.eval_root) below) ≡ ok parsed)
      × (truthy (get (lit "providers") parsed) ≡ false)
      × (truthy (get (lit "eval_tier") (get (lit "metadata") parsed)) ≡ true)
      × Moved (roots.eval_root) (dirname (join_below (roots.eval_root) below))
          (dirname (join_below (tmp_root roots) below)) parsed rewritten

  read_yaml_below-twice :
      (path below : Str) (parsed : Value)
      → normalize_config_path (roots.eval_root) path ≡ ok below
      → read_yaml_below roots readers below ≡ ok parsed
      → readers.read_yaml (join_below (roots.eval_root) below) ≡ ok parsed
  unfolding read_yaml_below
  read_yaml_below-twice path below parsed n h =
      rw (normalize_config_path_idempotent (roots.eval_root) path below n) at h

  prepare-IsPrepared :
      (path : Str) (prepared : Prepared)
      → prepare roots readers path ≡ ok prepared
      → IsPrepared path (prepared.parsed) (prepared.rewritten)
  unfolding prepare
  prepare-IsPrepared path prepared h =
      let (below, n, h1) =
        >>=-returned (or_path_error (normalize_config_path (roots.eval_root) path)) _ h in
      let (parsed, r, h2) = >>=-returned (read_yaml_below roots readers below) _ h1 in
      let (u, p, h3) =
        >>=-returned (guard (not (truthy (get (lit "providers") parsed))) (own_providers below)) _
          h2 in
      let (v, t, h4) =
        >>=-returned
          (guard (truthy (get (lit "eval_tier") (get (lit "metadata") parsed)))
            (missing_eval_tier below))
          _ h3 in
      let (rewritten, w, same) =
        >>=-returned
          (or_path_error (
            rewrite_relative_file_urls (roots.eval_root)
              (dirname (join_below (roots.eval_root) below))
              (dirname (join_below (tmp_root roots) below)) parsed))
          _ h4 in
      let normal = or_path_error-ok (normalize_config_path (roots.eval_root) path) below n in
      let unset : not (truthy (get (lit "providers") parsed)) ≡ true = (guard_iff _ _).0 p in
      subst (λ q. IsPrepared path (q.parsed) (q.rewritten)) (ok-injective same)
        (
          below,
          normal,
          read_yaml_below-twice path below parsed normal r,
          ground (arith, unset),
          (guard_iff _ _).0 t,
          rewrite_relative_file_urls-Moved _ _ _ parsed rewritten (or_path_error-ok _ rewritten w),
        )

  -- A configuration that is resolved comes from the file at the path that the one asked for is
  -- normalised to, and that file has no providers of its own and names a tier. Under each key but
  -- `providers` it has what that file has there, with the file references in it moved, and under
  -- `providers` it has a list.
  pub resolve_config_file-Moved :
      (path : Str) (cache : Option Str) (v : Value) (key : Str)
      → (resolve_config_file roots readers path cache).0 ≡ ok v
      → str_eq (lit "providers") key ≡ false
      → (parsed : Value) × (rewritten : Value) × (providers : List Value) × IsPrepared path parsed
          rewritten
        × (get key v ≡ lookup key (entries rewritten))
        × (get (lit "providers") v ≡ array providers)
  resolve_config_file-Moved path cache v key h other =
      let (prepared, raw_tier, providers, p, q, listed, kept, selects) =
        resolve_config_file-Selects roots readers cache path v h in
      (
        prepared.parsed,
        prepared.rewritten,
        providers,
        prepare-IsPrepared path prepared p,
        kept key other,
        listed,
      )
