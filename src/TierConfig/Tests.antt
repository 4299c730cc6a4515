-- ===== src/TierConfig/Tests.antt =====
-- Configurations that are read, and the theorems at concrete inputs.
use promptfoo_eval_harness.Prelude.{
  ◌≡◌, refl, ◌↔◌, Str, lit, true, List, [], ◌∷◌, str_eq, trim, is_space, starts_with, includes,
  Result, ok,
}
use promptfoo_eval_harness.Paths.{resolve, resolve_within_root}
use promptfoo_eval_harness.Js.{
  pos, integer, Value, null, num, bool, str, object, array, get, has, entries, lookup, put, truthy,
  is_object, is_plain, is_array, is_string, is_boolean, is_number, is_undefined,
}
use promptfoo_eval_harness.TierConfig.Shape.{
  is_v1_shape, is_v0_shape, normalize_v0_to_v1, normalize_tiers, parse_tier_config,
}
use promptfoo_eval_harness.TierConfig.Shape.Laws.{IsConfig, parse_tier_config-IsConfig}
use promptfoo_eval_harness.TierConfig.RuntimeFields.{
  validate_runtime, validate_presence, validate_optional, validate_plugin_subdirs,
  normalize_empty_output_retries,
}
use promptfoo_eval_harness.TierConfig.RuntimeFields.Spec.{IsRuntime, validate_runtime_iff}
use promptfoo_eval_harness.TierConfig.Load
use promptfoo_eval_harness.TierConfig.Load.{
  Suite, is_text, is_positive, validate_open_code_eval_agent, load_open_code_agents, check_required,
  check_tier, check_tiers, load_eval_tier_config,
}
use promptfoo_eval_harness.TierConfig.Load.Sound.{IsSound, load_eval_tier_config-IsSound}

abbrev runtime : List (Str × Value)
runtime =
    (lit "provider_id", str (lit "opencode"))
    ∷ (lit "opencode_config", str (lit "opencode.json"))
    ∷ (lit "project_dir", str (lit ".."))
    ∷ (lit "format", str (lit "json"))
    ∷ (lit "log_level", str (lit "INFO"))
    ∷ (lit "print_logs", bool true)
    ∷ []

validate_runtime_iff_example :
    (validate_runtime (object runtime) ≡ ok tt) ↔ IsRuntime (object runtime)
validate_runtime_iff_example = validate_runtime_iff (object runtime)

-- A configuration of the old version.
abbrev tiers : List (Str × Value)
tiers =
    (lit "light", object ((lit "agent", str (lit "grader")) ∷ []))
    ∷ (lit "standard", object ((lit "agent", str (lit "grader")) ∷ []))
    ∷ (lit "high", object ((lit "agent", str (lit "grader")) ∷ []))
    ∷ (lit "x_high", object ((lit "agent", str (lit "grader")) ∷ []))
    ∷ []

abbrev old_config : Value
old_config = object ((lit "runtime", object runtime) ∷ (lit "tiers", object tiers) ∷ [])

abbrev new_tier : Value
new_tier = object (
    (
      lit "providers",
      array (
          object (
            (lit "provider_kind", str (lit "opencode_cli"))
            ∷ (lit "label", str (lit "grader"))
            ∷ (lit "model", null)
            ∷ (lit "agent_config", str (lit "opencode.json"))
            ∷ [])
          ∷ []),
    )
    ∷ [])

-- The same in the new version.
abbrev new_config : Value
new_config = object (
    (lit "version", str (lit "v1-normalized"))
    ∷ (
      lit "tiers",
      object (
          (lit "light", new_tier)
          ∷ (lit "standard", new_tier)
          ∷ (lit "high", new_tier)
          ∷ (lit "x_high", new_tier)
          ∷ []),
    )
    ∷ (lit "runtime", object runtime)
    ∷ [])

parses : parse_tier_config old_config ≡ ok new_config
unfolding parse_tier_config is_v1_shape is_v0_shape normalize_v0_to_v1 normalize_tiers get entries
    lookup put truthy is_object is_plain is_array is_string str_eq trim is_space lit
parses = refl

parse_tier_config-IsConfig_example : IsConfig new_config
parse_tier_config-IsConfig_example = parse_tier_config-IsConfig old_config new_config parses

abbrev permission : Value
permission = object (
    (lit "read", str (lit "allow"))
    ∷ (lit "write", str (lit "allow"))
    ∷ (lit "edit", str (lit "allow"))
    ∷ (lit "bash", str (lit "allow"))
    ∷ (lit "grep", str (lit "allow"))
    ∷ (lit "glob", str (lit "allow"))
    ∷ (lit "list", str (lit "allow"))
    ∷ (lit "webfetch", str (lit "deny"))
    ∷ [])

abbrev agents : Value
agents = object (
    (
      lit "grader",
      object (
          (lit "description", str (lit "Grades an answer"))
          ∷ (lit "mode", str (lit "primary"))
          ∷ (lit "model", str (lit "m1"))
          ∷ (lit "steps", num (integer (pos 40)))
          ∷ (lit "permission", permission)
          ∷ []),
    )
    ∷ [])

abbrev read_json : Str → Result Load.Error Value
read_json path = ok (object ((lit "agent", agents) ∷ []))

abbrev suite : Suite
suite = record {
  runtime = object runtime;
  opencode_config = lit "/repo/evals/opencode.json";
  project_dir = lit "/repo";
  empty_output_retries = num (integer (pos 0));
  tiers = tiers;
  agents = agents;
}

loads : load_eval_tier_config (lit "/repo/evals") (lit "/repo") read_json old_config ≡ ok suite
unfolding load_eval_tier_config load_open_code_agents check_tiers check_required check_tier
    validate_open_code_eval_agent validate_runtime validate_presence validate_optional
    validate_plugin_subdirs normalize_empty_output_retries is_text is_positive resolve_within_root
    resolve get has entries lookup truthy is_object is_plain is_array is_string is_boolean is_number
    is_undefined str_eq trim is_space starts_with includes lit
loads = refl

load_eval_tier_config-IsSound_example : IsSound (lit "/repo/evals") (lit "/repo") old_config suite
load_eval_tier_config-IsSound_example =
    load_eval_tier_config-IsSound (lit "/repo/evals") (lit "/repo") read_json old_config suite loads
