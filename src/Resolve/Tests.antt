-- ===== src/Resolve/Tests.antt =====
-- A package's configuration that is resolved, and the theorems at concrete inputs.
use promptfoo_eval_harness.Prelude.{
  ℕ, ◌≡◌, refl, true, false, ◌⊎◌, List, [], ◌∷◌, ◌++◌, map, all, All, Str, lit, str_eq, starts_with,
  ends_with, none, some, ok, err,
}
use promptfoo_eval_harness.Paths.{
  read_char, split_slash, resolve_from, render, resolve_parts, resolve, resolve_root, is_within,
  ensure_within_root, resolve_within_root,
}
use promptfoo_eval_harness.Paths.Relative.{
  parts_of, join_slash, climb, relative_parts, relative, dirname, join_below,
}
use promptfoo_eval_harness.Js.{
  Value, str, object, array, get, lookup, entries, put, omit, truthy, is_object, is_plain, is_array,
  is_string,
}
use promptfoo_eval_harness.TierConfig.Shape.{
  parse_tier_config, is_v1_shape, validate_v1_shape, validate_tier, validate_provider,
}
use promptfoo_eval_harness.TierConfig.RuntimeFields.{keys}
use promptfoo_eval_harness.TierConfig.Load
use promptfoo_eval_harness.Resolve.{Roots, tmp_root}
use promptfoo_eval_harness.Resolve.Urls.{
  file_scheme, after, split_colon, match_file_url, move, rewrite_url, rewrite_relative_file_urls,
  normalize_config_path,
}
use promptfoo_eval_harness.Resolve.Urls.Target.{rewrite_url-target}
use promptfoo_eval_harness.Resolve.Entries.{
  build_bridge_provider_entry, each_scenario, each_provider, each_tier, emit_providers,
  resolve_multi_provider_config,
}
use promptfoo_eval_harness.Resolve.Entries.Distinct.{Distinct, case_id_of}
use promptfoo_eval_harness.Resolve.Entries.Loops.{IsSelected, ListsCases}
use promptfoo_eval_harness.Resolve.Entries.Cases.{resolve_multi_provider_config-Cases}
use promptfoo_eval_harness.Resolve.Blocks.{is_v1_raw_shape}
use promptfoo_eval_harness.Resolve.Package.{
  Readers, prepare, read_yaml_below, resolve_config_file, write_resolved_config, choose, emitted,
  with_providers, with_provider_id,
}
use promptfoo_eval_harness.Resolve.Package.Written.{
  WritesBelow, effects_of, write_resolved_config-WritesBelow,
}
use promptfoo_eval_harness.Bridge.Runtime.Redaction.{texts}
use promptfoo_eval_harness.Resolve.Urls.Refuses.{returns, stays, rewrite_relative_file_urls-returns}
use promptfoo_eval_harness.Resolve.Package.Kept.{IsPrepared, resolve_config_file-Moved}

abbrev roots : Roots
roots = record { eval_root = lit "/r"; framework_root = lit "/r/f" }

abbrev source : Str
source = lit "/r/packages/p"

abbrev target : Str
target = lit "/r/.tmp/resolved-configs/packages/p"

moved :
    rewrite_url (lit "/r") source target (lit "file://../a.js:check")
    ≡ ok (lit "file://../../../../packages/a.js:check")
unfolding rewrite_url match_file_url split_colon after move ensure_within_root resolve resolve_parts
    resolve_from split_slash read_char render relative relative_parts climb join_slash parts_of
    str_eq starts_with lit
moved = refl

read_reference : match_file_url (lit "file://../a.js:check") ≡ some (lit "../a.js", lit ":check")
unfolding match_file_url split_colon after starts_with lit
read_reference = refl

rewrite_url-target_example :
    (path : Str) × (lit "file://../../../../packages/a.js:check"
      ≡ file_scheme ++ (path ++ lit ":check"))
    × (resolve target path ≡ resolve source (lit "../a.js"))
    × (is_within (resolve source (lit "../a.js")) (resolve_root (lit "/r")) ≡ true)
rewrite_url-target_example =
    rewrite_url-target (lit "/r") source target (lit "file://../a.js:check") (lit "../a.js")
      (lit ":check") (lit "file://../../../../packages/a.js:check") read_reference
      (unfold lit in refl) moved

-- A reference that leaves the root, deep in a configuration.
abbrev leaving : Value
leaving = object ((lit "tests", array (str (lit "file://../../../../b.js") ∷ [])) ∷ [])

rewrite_relative_file_urls-returns_example :
    returns (rewrite_relative_file_urls (lit "/r") source target leaving)
    ≡ all (stays (lit "/r") source) (texts leaving)
rewrite_relative_file_urls-returns_example =
    rewrite_relative_file_urls-returns (lit "/r") source target leaving

-- A provider's entry that claims the keys that the resolver owns.
abbrev forged : Value
forged = object (
    (lit "provider_kind", str (lit "opencode_sdk"))
    ∷ (lit "case_id", str (lit "mine"))
    ∷ (lit "run_id", str (lit "mine"))
    ∷ [])

abbrev config : Value
config = object (
    (lit "version", str (lit "v1"))
    ∷ (
      lit "tiers",
      object ((lit "light", object ((lit "providers", array (forged ∷ forged ∷ [])) ∷ [])) ∷ []),
    )
    ∷ [])

-- The same, as it is read.
config_parsed : parse_tier_config config ≡ ok config
unfolding parse_tier_config is_v1_shape validate_v1_shape validate_tier validate_provider is_plain
    is_object is_array is_string get lookup truthy entries put str_eq lit
config_parsed = refl

abbrev print : Value → Str
print v = lit "[object Object]"

abbrev provider : ℕ → Value
provider p = build_bridge_provider_entry roots print (lit "light") forged p 0 (lit "run") []

emitted_providers :
    (resolve_multi_provider_config roots print config
      (object [] ∷ [])
      (lit "light")
      []
      none
      (lit "run")).0
    ≡ ok (provider 0 ∷ provider 1 ∷ [])
unfolding resolve_multi_provider_config emit_providers each_tier each_provider each_scenario
    parse_tier_config is_v1_shape validate_v1_shape validate_tier validate_provider is_plain
    is_object is_array is_string get lookup truthy entries put omit str_eq lit
emitted_providers = refl

one_tier : Distinct (keys (entries (get (lit "tiers") config)))
unfolding get lookup entries str_eq lit
one_tier = (tt, tt)

resolve_multi_provider_config-Cases_example :
    ListsCases
      (IsSelected (entries (get (lit "tiers") config)) (lit "light"))
      (lit "run")
      (object [] ∷ [])
      (map case_id_of (provider 0 ∷ provider 1 ∷ []))
    × Distinct (map case_id_of (provider 0 ∷ provider 1 ∷ []))
resolve_multi_provider_config-Cases_example =
    resolve_multi_provider_config-Cases roots print config config (object [] ∷ [])
      (provider 0 ∷ provider 1 ∷ []) (lit "light") [] (lit "run") none config_parsed one_tier
      emitted_providers

abbrev parsed : Value
parsed = object (
    (lit "prompts", array (str (lit "file://a.js") ∷ []))
    ∷ (lit "metadata", object ((lit "eval_tier", str (lit "light")) ∷ []))
    ∷ [])

abbrev readers : Readers
readers = record {
  read_yaml = λ path. ok parsed;
  read_toml = λ path. ok config;
  read_json = λ path. err (Load.unreadable path);
  tier_config_path = lit "/r/config/eval-tiers.toml";
  repo_root = lit "/";
  to_text = print;
  fresh = lit "run";
}

abbrev package_path : Str
package_path = lit "packages/p/promptfooconfig.yaml"

abbrev rewritten : Value
rewritten = object (
    (lit "prompts", array (str (lit "file://../../../../packages/p/a.js") ∷ []))
    ∷ (lit "metadata", object ((lit "eval_tier", str (lit "light")) ∷ []))
    ∷ [])

prepared :
    prepare roots readers package_path
    ≡ ok (record { parsed = parsed; rewritten = rewritten; eval_tier = lit "light" })
unfolding prepare read_yaml_below normalize_config_path resolve_within_root
    rewrite_relative_file_urls rewrite_url match_file_url split_colon after move ensure_within_root
    resolve resolve_parts resolve_from split_slash read_char render relative relative_parts climb
    join_slash parts_of join_below dirname str_eq starts_with ends_with lit get lookup truthy
    is_string
prepared = refl

-- The package's configuration as promptfoo runs it.
abbrev resolved : Value
resolved = with_providers rewritten (map (with_provider_id roots) (provider 0 ∷ provider 1 ∷ []))

config_resolved : (resolve_config_file roots readers package_path none).0 ≡ ok resolved
unfolding resolve_config_file choose emitted is_v1_raw_shape prepare read_yaml_below
    normalize_config_path resolve_within_root rewrite_relative_file_urls rewrite_url match_file_url
    split_colon after move ensure_within_root resolve resolve_parts resolve_from split_slash
    read_char render relative relative_parts climb join_slash parts_of join_below dirname str_eq
    starts_with ends_with lit get lookup truthy is_string resolve_multi_provider_config
    emit_providers each_tier each_provider each_scenario parse_tier_config is_v1_shape
    validate_v1_shape validate_tier validate_provider is_plain is_object is_array entries put omit
config_resolved = refl

other_key : str_eq (lit "providers") (lit "prompts") ≡ false
unfolding str_eq lit
other_key = refl

resolve_config_file-Moved_example :
    (own : Value) × (rewritten : Value) × (providers : List Value) × IsPrepared roots readers
      package_path own rewritten
    × (get (lit "prompts") resolved ≡ lookup (lit "prompts") (entries rewritten))
    × (get (lit "providers") resolved ≡ array providers)
resolve_config_file-Moved_example =
    resolve_config_file-Moved roots readers package_path none resolved (lit "prompts")
      config_resolved other_key

write_resolved_config-WritesBelow_example :
    let effects = effects_of (
      write_resolved_config roots readers
        (lit "/r")
        (lit ".tmp/resolved-configs/run")
        package_path
        none) in
    All (WritesBelow (resolve (lit "/r") (lit ".tmp/resolved-configs/run"))) effects
    × ((effects ≡ [])
        ⊎ (is_within
              (resolve (lit "/r") (lit ".tmp/resolved-configs/run"))
              (resolve_root (tmp_root roots))
            ≡ true))
write_resolved_config-WritesBelow_example =
    write_resolved_config-WritesBelow roots readers (lit "/r") (lit ".tmp/resolved-configs/run")
      package_path none
