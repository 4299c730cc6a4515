-- ===== src/Resolve/Blocks.antt =====
-- The providers of a configuration of the old version: `resolveMultiTurnProviderBlock`, the
-- configuration that `resolveProviderBlock` returns, and the tests that choose between the branches
-- of `resolveConfigFile`.
use promptfoo_eval_harness.Prelude.{
  Bool, true, false, not, ◌&&◌, List, [], ◌∷◌, ◌++◌, Str, lit, str_eq, is_blank, any, if◌then◌else◌,
  Result, ok, ◌>>◌, guard,
}
use promptfoo_eval_harness.Js.{
  Value, str, object, get, entries, or_else, truthy, is_object, is_plain, is_array, is_string, text,
  elements,
}
use promptfoo_eval_harness.TierConfig.Shape.{values, has_providers}
use promptfoo_eval_harness.TierConfig.Load.{Suite, load_eval_tier_config, resolve_eval_tier}
use promptfoo_eval_harness.TierConfig.Load
use promptfoo_eval_harness.Resolve.{
  Roots, tmp_root, reference_outside_root, config_outside_root, write_outside_root,
  output_outside_root,
}
use promptfoo_eval_harness.Resolve
use promptfoo_eval_harness.Resolve.Entries.{bridge_file_url, resolve_multi_provider_config}
use promptfoo_eval_harness.Resolve.Entries

-- What is thrown, with the path that the message names. `not_read` is what the readers throw.
pub data Error : Type 0 where
  bad_path : Resolve.Error → Error
  bad_suite : Load.Error → Error
  bad_entries : Entries.Error → Error
  not_read : Str → Error
  own_providers missing_eval_tier : Str → Error
  missing_multiturn missing_kind missing_model : Error

abbrev pub no_elements : List Value → Bool
no_elements [] = true
no_elements (v ∷ vs) = false

unfoldable pub has_turns_var : Value → Bool
has_turns_var test =
    let turns = get (lit "turns") (get (lit "vars") test) in
    if is_array turns
    then not (no_elements (elements turns))
    else is_string turns && not (is_blank (text turns))

unfoldable pub has_multi_turn_test : Value → Bool
has_multi_turn_test parsed =
    if not (is_object parsed)
    then false
    else if has_turns_var (get (lit "defaultTest") parsed)
    then true
    else any has_turns_var (elements (get (lit "tests") parsed))

unfoldable pub is_v1_raw_shape : Value → Bool
is_v1_raw_shape raw =
    let version = get (lit "version") raw in
    let tiers = get (lit "tiers") raw in
    if not (is_plain raw)
    then false
    else if is_string version && str_eq (text version) (lit "v1")
    then true
    else if not (is_object tiers)
    then false
    else any has_providers (values (entries tiers))

abbrev pub full_text : Value → Bool
full_text v = truthy v && is_string v

abbrev pub when_given : Value → Str → Value → List (Str × Value)
when_given v key w = if truthy v then (key, w) ∷ [] else []

unfoldable pub resolve_multi_turn_provider_block : Roots → Value → Result Error Value
resolve_multi_turn_provider_block roots raw_tier = do
  let mt = get (lit "multiturn") raw_tier
  guard (is_plain mt) missing_multiturn
  let kind = get (lit "provider_kind") mt
  let model = get (lit "model") mt
  guard (full_text kind) missing_kind
  guard (full_text model) missing_model
  let label = or_else (get (lit "label") mt) (str (text kind ++ (47 ∷ text model)))
  let opencode_agent = get (lit "opencode_agent") mt
  let agent = get (lit "agent") mt
  ok (
      object (
        (lit "id", str (bridge_file_url roots))
        ∷ (lit "label", label)
        ∷ (
          lit "config",
          object (
              (lit "provider_kind", kind)
              ∷ (lit "provider_label", label)
              ∷ (lit "model", model)
              ∷ (when_given opencode_agent (lit "extra")
                    (object ((lit "opencode_agent", opencode_agent) ∷ []))
                  ++ when_given agent (lit "agent") agent)),
        )
        ∷ []))

-- The configuration of the provider for a tier, from the suite.
unfoldable pub block_config : Suite → Value → Value
block_config suite tier =
    let runtime = suite.runtime in
    object (
      (lit "agent", get (lit "agent") tier)
      ∷ (lit "opencode_config", str (suite.opencode_config))
      ∷ (lit "project_dir", str (suite.project_dir))
      ∷ (lit "format", get (lit "format") runtime)
      ∷ (lit "log_level", get (lit "log_level") runtime)
      ∷ (lit "print_logs", get (lit "print_logs") runtime)
      ∷ (lit "empty_output_retries", suite.empty_output_retries)
      ∷ (lit "agent_id", get (lit "agent_id") runtime)
      ∷ (lit "agent_entrypoint_file", get (lit "agent_entrypoint_file") runtime)
      ∷ (lit "bootstrap_prompt", get (lit "bootstrap_prompt") runtime)
      ∷ (lit "auto_reply_text", get (lit "auto_reply_text") runtime)
      ∷ (lit "max_auto_replies", get (lit "max_auto_replies") runtime)
      ∷ (lit "idle_turn_stop", get (lit "idle_turn_stop") runtime)
      ∷ (lit "plugin_subdirs", get (lit "plugin_subdirs") runtime)
      ∷ (lit "opencode_runner_command", get (lit "opencode_runner_command") runtime)
      ∷ (lit "opencode_plugin_link_path", get (lit "opencode_plugin_link_path") runtime)
      ∷ (lit "model", get (lit "model") runtime)
      ∷ (lit "capture_on_failure", get (lit "capture_on_failure") runtime)
      ∷ (lit "write_run_metadata", get (lit "write_run_metadata") runtime)
      ∷ (lit "load_local_env", get (lit "load_local_env") runtime)
      ∷ (lit "opencode_parser_module", get (lit "opencode_parser_module") runtime)
      ∷ [])
