-- ===== src/Resolve/Package.antt =====
-- `resolveConfigFile` and `writeResolvedConfig`: a package's configuration is read, its file
-- references are rewritten, and the providers of its tier are put in place of its own.
pub mod Chosen
pub mod Written
pub mod Kept
use promptfoo_eval_harness.Prelude.{
  Bool, true, false, not, ◌&&◌, ◌||◌, List, [], ◌∷◌, ◌++◌, map, Str, lit, str_eq, is_empty,
  is_blank, any, if◌then◌else◌, Option, none, some, Result, ok, err, ◌>>=◌, ◌>>◌, guard,
}
use promptfoo_eval_harness.Paths.{resolve_within_root}
use promptfoo_eval_harness.Paths.Relative.{relative, join_below, dirname}
use promptfoo_eval_harness.Js.{
  Value, null, str, object, array, get, put, entries, or_else, truthy, is_object, is_plain,
  is_array, is_string, text, elements,
}
use promptfoo_eval_harness.TierConfig.Shape.{values, has_providers}
use promptfoo_eval_harness.TierConfig.Load.{Suite, load_eval_tier_config, resolve_eval_tier}
use promptfoo_eval_harness.TierConfig.Load
use promptfoo_eval_harness.Resolve.{
  Roots, tmp_root, reference_outside_root, config_outside_root, write_outside_root,
  output_outside_root,
}
use promptfoo_eval_harness.Resolve
use promptfoo_eval_harness.Resolve.Urls.{
  rewrite_relative_file_urls, resolve_provider_id, normalize_config_path, normalize_output_root,
}
use promptfoo_eval_harness.Resolve.Entries.{bridge_file_url, resolve_multi_provider_config}
use promptfoo_eval_harness.Resolve.Entries
use promptfoo_eval_harness.Resolve.Blocks.{
  Error, bad_path, bad_suite, bad_entries, not_read, own_providers, missing_eval_tier,
  has_multi_turn_test, is_v1_raw_shape, resolve_multi_turn_provider_block, block_config,
}

-- `read_yaml`, `read_toml` and `read_json` read and parse the file at a path; the tier configuration
-- lies at `tier_config_path`, and a suite may use directories below `repo_root`. `to_text` is what a
-- template literal makes of a value that is no text, and `fresh` a new UUID.
pub record Readers : Type 0 where
  pub read_yaml : Str → Result Error Value
  pub read_toml : Str → Result Error Value
  pub read_json : Str → Result Load.Error Value
  pub tier_config_path : Str
  pub repo_root : Str
  pub to_text : Value → Str
  pub fresh : Str

abbrev pub or_path_error {ℓ} : {A : Type ℓ} → Result Resolve.Error A → Result Error A
or_path_error (ok a) = ok a
or_path_error (err e) = err (bad_path e)

abbrev pub or_suite_error {ℓ} : {A : Type ℓ} → Result Load.Error A → Result Error A
or_suite_error (ok a) = ok a
or_suite_error (err e) = err (bad_suite e)

abbrev pub or_entries_error {ℓ} : {A : Type ℓ} → Result Entries.Error A → Result Error A
or_entries_error (ok a) = ok a
or_entries_error (err e) = err (bad_entries e)

-- `{ ...rewritten, providers }`
abbrev pub with_providers : Value → List Value → Value
with_providers rewritten providers =
    object (put (lit "providers") (array providers) (entries rewritten))

-- The provider with its id resolved.
abbrev pub with_provider_id : Roots → Value → Value
with_provider_id roots provider = object (
    put (lit "id") (str (resolve_provider_id roots (text (get (lit "id") provider))))
      (entries provider))

-- A package's configuration after the checks: as parsed, as rewritten, and the name of its tier.
pub record Prepared : Type 0 where
  pub parsed : Value
  pub rewritten : Value
  pub eval_tier : Str

pub data Effect : Type 0 where
  make_directory : Str → Effect
  write_file : Str → Value → Effect

module _ (roots : Roots) (readers : Readers) where
  abbrev pub tier_name : Value → Str
  tier_name v = if is_string v then text v else readers.to_text v

  unfoldable pub resolve_provider_block : Str → Result Error Value
  unfolding block_config
  resolve_provider_block eval_tier = do
    parsed ← readers.read_toml (readers.tier_config_path)
    suite ←
        or_suite_error
          (load_eval_tier_config (roots.eval_root) (readers.repo_root) (readers.read_json) parsed)
    tier ← or_suite_error (
        resolve_eval_tier (roots.eval_root) (readers.repo_root) (readers.read_json) suite eval_tier)
    let id = text (get (lit "provider_id") (suite.runtime))
    ok (
        object (
          (lit "id", str (resolve_provider_id roots id))
          ∷ (lit "config", block_config suite tier)
          ∷ []))

  unfoldable pub read_yaml_below : Str → Result Error Value
  read_yaml_below path = do
    normalized ← or_path_error (normalize_config_path (roots.eval_root) path)
    readers.read_yaml (join_below (roots.eval_root) normalized)

  -- The checks of `resolveConfigFile`, and the rewriting.
  unfoldable pub prepare : Str → Result Error Prepared
  unfolding read_yaml_below
  prepare path = do
    normalized ← or_path_error (normalize_config_path (roots.eval_root) path)
    parsed ← read_yaml_below normalized
    guard (not (truthy (get (lit "providers") parsed))) (own_providers normalized)
    let eval_tier = get (lit "eval_tier") (get (lit "metadata") parsed)
    guard (truthy eval_tier) (missing_eval_tier normalized)
    rewritten ← or_path_error (
        rewrite_relative_file_urls (roots.eval_root)
          (dirname (join_below (roots.eval_root) normalized))
          (dirname (join_below (tmp_root roots) normalized)) parsed)
    ok (record { parsed = parsed; rewritten = rewritten; eval_tier = tier_name eval_tier })

  -- The branch for a configuration of the new version.
  unfoldable pub emitted :
      Value → Result Entries.Error (List Value) × Option Str → Result Error Value × Option Str
  emitted rewritten (providers, cache) = (
    or_entries_error providers >>= λ ps.
        ok (with_providers rewritten (map (with_provider_id roots) ps)),
    cache,
  )

  -- The one provider of a configuration of the old version.
  unfoldable pub only_provider : Prepared → Value → Result Error Value
  only_provider prepared raw_tier =
      if has_multi_turn_test (prepared.parsed)
      then resolve_multi_turn_provider_block roots raw_tier
      else resolve_provider_block (prepared.eval_tier)

  -- The branches on the shape of the tier configuration and on the tests.
  unfoldable pub choose : Prepared → Value → Option Str → Result Error Value × Option Str
  unfolding only_provider emitted
  choose prepared raw_tier cache =
      if is_v1_raw_shape raw_tier
      then emitted (prepared.rewritten) (
          resolve_multi_provider_config roots (readers.to_text) raw_tier (object [] ∷ [])
            (prepared.eval_tier) [] cache (readers.fresh))
      else (
        only_provider prepared raw_tier >>= λ p. ok (with_providers (prepared.rewritten) (p ∷ [])),
        cache,
      )

  -- The resolved configuration, and the cached run id afterwards.
  unfoldable pub resolve_config_file : Str → Option Str → Result Error Value × Option Str
  unfolding prepare choose
  resolve_config_file path cache = elim (prepare path) [
    | err e ↦ (err e, cache)
    | ok prepared ↦ elim (readers.read_toml (readers.tier_config_path)) [
      | err e ↦ (err e, cache)
      | ok raw_tier ↦ choose prepared raw_tier cache
    ]
  ]

  -- Where the file goes, and what is returned for it.
  unfoldable pub output_path : Str → Str → Result Error Str
  output_path output_root normalized =
      or_path_error
        (resolve_within_root output_root normalized output_root (write_outside_root normalized))

  unfoldable pub store : Value → Result Error Str → List Effect × Result Error Str
  store resolved (err e) = ([], err e)
  store resolved (ok path) = (
    make_directory (dirname path) ∷ write_file path resolved ∷ [],
    ok (relative (roots.eval_root) path),
  )

  unfoldable pub stored :
      Str → Str → Result Error Value × Option Str → (List Effect × Result Error Str) × Option Str
  stored output_root normalized (err e, cache) = ((make_directory output_root ∷ [], err e), cache)
  stored output_root normalized (ok resolved, cache) =
      let (effects, result) = store resolved (output_path output_root normalized) in
      ((make_directory output_root ∷ effects, result), cache)

  -- The two paths, before anything is done.
  unfoldable pub targets : Str → Str → Str → Result Error (Str × Str)
  targets cwd output_root path = do
    normalized ← or_path_error (normalize_config_path (roots.eval_root) path)
    normalized_root ← or_path_error (normalize_output_root roots cwd output_root)
    ok (normalized_root, normalized)

  unfoldable pub write_at :
      Option Str → Result Error (Str × Str) → (List Effect × Result Error Str) × Option Str
  unfolding stored
  write_at cache (err e) = (([], err e), cache)
  write_at cache (ok (normalized_root, normalized)) =
      stored normalized_root normalized (resolve_config_file normalized cache)

  -- What is done, in order, with the path returned; `cwd` is the working directory.
  unfoldable pub write_resolved_config :
      Str → Str → Str → Option Str → (List Effect × Result Error Str) × Option Str
  unfolding targets write_at
  write_resolved_config cwd output_root path cache = write_at cache (targets cwd output_root path)
