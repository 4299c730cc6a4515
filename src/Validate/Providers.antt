-- ===== src/Validate/Providers.antt =====
-- `_validateProvider` and `_validateAgentServerAdapter`.
pub mod Spec
use promptfoo_eval_harness.Prelude.{
  ℕ, Bool, true, false, not, ◌&&◌, ◌||◌, List, [], ◌∷◌, ◌++◌, map, Str, lit, str_eq, includes,
  is_empty, is_blank, Option, none, some, if◌then◌else◌,
}
use promptfoo_eval_harness.Paths.{resolve}
use promptfoo_eval_harness.Js.{Value, str, get, lookup, truthy, or_else, is_object, is_string, text}
use promptfoo_eval_harness.TierConfig.RuntimeFields.{keys, is_full_string}
use promptfoo_eval_harness.Validate.Received.{
  Rules, File, missing, unparsable, parsed, Error, error, not_object, no_kind, no_model,
  not_resolvable, no_adapter, reserved, unregistered, no_config, bad_json, bad_adapter_field,
}
use promptfoo_eval_harness.Validate.Turns.{collect}

abbrev pub reserved_kinds : List Str
reserved_kinds = []

abbrev pub required_adapter_fields : List Str
required_adapter_fields =
    lit "agent_id"
    ∷ lit "agent_entrypoint_file"
    ∷ lit "agent_semantics"
    ∷ lit "eval_mode_preamble"
    ∷ []

module _ (rules : Rules) where
  abbrev pub valid_kinds : List Str
  valid_kinds = keys rules.kind_registry ++ rules.extra_kinds

  abbrev pub needs_model : Str → Bool
  needs_model kind =
      let mode = get (lit "mode") (lookup kind rules.kind_registry) in
      is_string mode && str_eq (text mode) (lit "subprocess") || includes rules.extra_kinds kind

  unfoldable pub check_model : Str → Value → List Error
  check_model base model =
      let path = base ++ lit ".model" in
      if is_full_string model
      then elim (rules.resolver (text model)) [
        | none ↦ []
        | some message ↦ error rules path not_resolvable model ∷ []
      ]
      else error rules path no_model model ∷ []

  -- Where the configuration of the agent server lies, when it is named by a text.
  abbrev pub config_path : Value → Str
  config_path p =
      resolve rules.eval_root
        (text (or_else (get (lit "openhands_config") p) (str (lit "openhands.json"))))

  abbrev pub check_adapter_field : Str → Value → ℕ → Str → List Error
  check_adapter_field path adapter i k =
      if is_full_string (get k adapter)
      then []
      else error rules (path ++ (lit ".adapter." ++ k)) bad_adapter_field (get k adapter) ∷ []

  unfoldable pub check_config : Str → Str → File → List Error
  check_config base path missing =
      error rules (base ++ lit ".openhands_config") no_config (str path) ∷ []
  check_config base path (unparsable message) = error rules path bad_json (str message) ∷ []
  check_config base path (parsed cfg) =
      let adapter = get (lit "adapter") cfg in
      if is_object adapter
      then collect (check_adapter_field path adapter) 0 required_adapter_fields
      else error rules (path ++ lit ".adapter") no_adapter (if truthy cfg then adapter else cfg)
        ∷ []

  abbrev pub checks_adapter : Str → Bool
  checks_adapter kind = str_eq kind (lit "openhands_agent_server") && not (is_empty rules.eval_root)

  unfoldable pub check_kind : Str → Str → Value → List Error
  check_kind base kind p =
      (if needs_model kind then check_model base (get (lit "model") p) else [])
      ++ (if checks_adapter kind
          then check_config base (config_path p) (rules.read (config_path p))
          else [])

  unfoldable pub validate_provider : Str → Value → List Error
  validate_provider base p =
      let kind = get (lit "provider_kind") p in
      let path = base ++ lit ".provider_kind" in
      if not (is_object p)
      then error rules base not_object p ∷ []
      else if not (truthy kind && is_string kind)
      then error rules path no_kind kind ∷ []
      else if includes reserved_kinds (text kind)
      then error rules path (reserved (text kind)) kind ∷ []
      else if not (includes valid_kinds (text kind))
      then error rules path (unregistered (text kind)) kind ∷ []
      else check_kind base (text kind) p
