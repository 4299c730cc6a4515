-- ===== src/TierConfig/RuntimeFields.antt =====
-- `validateRuntime` and `normalizeEmptyOutputRetries`: the fields of the runtime table. An error
-- carries the field that it names.
pub mod Spec
use promptfoo_eval_harness.Prelude.{
  ℕ, Bool, true, false, not, ◌&&◌, ◌||◌, List, [], ◌∷◌, ◌++◌, Str, lit, str_eq, is_blank, includes,
  if◌then◌else◌, Result, ok, err, ◌>>=◌, ◌>>◌, guard, each,
}
use promptfoo_eval_harness.Js.{
  ℤ, pos, negsuc, Number, integer, nan, inexact, Value, undefined, num, get, entries, is_array,
  is_boolean, is_string, is_undefined, text, elements,
}

pub data Error : Type 0 where
  missing_field unexpected_field not_string not_full_string not_count not_boolean : Str → Error
  bad_retries bad_plugin_subdirs : Error

abbrev pub string_fields : List Str
string_fields =
    lit "provider_id"
    ∷ lit "opencode_config"
    ∷ lit "project_dir"
    ∷ lit "format"
    ∷ lit "log_level"
    ∷ []

abbrev pub required_runtime_fields : List Str
required_runtime_fields = string_fields ++ lit "print_logs" ∷ []

abbrev pub string_optional_fields : List Str
string_optional_fields =
    lit "agent_id"
    ∷ lit "agent_entrypoint_file"
    ∷ lit "bootstrap_prompt"
    ∷ lit "auto_reply_text"
    ∷ lit "opencode_runner_command"
    ∷ lit "opencode_plugin_link_path"
    ∷ []

abbrev pub non_empty_string_optional_fields : List Str
non_empty_string_optional_fields = lit "model" ∷ lit "opencode_parser_module" ∷ []

abbrev pub non_negative_integer_optional_fields : List Str
non_negative_integer_optional_fields = lit "max_auto_replies" ∷ lit "idle_turn_stop" ∷ []

abbrev pub boolean_optional_fields : List Str
boolean_optional_fields =
    lit "capture_on_failure" ∷ lit "write_run_metadata" ∷ lit "load_local_env" ∷ []

abbrev pub optional_runtime_fields : List Str
optional_runtime_fields =
    lit "empty_output_retries"
    ∷ lit "agent_id"
    ∷ lit "agent_entrypoint_file"
    ∷ lit "bootstrap_prompt"
    ∷ lit "auto_reply_text"
    ∷ lit "max_auto_replies"
    ∷ lit "idle_turn_stop"
    ∷ lit "plugin_subdirs"
    ∷ lit "model"
    ∷ lit "opencode_runner_command"
    ∷ lit "opencode_plugin_link_path"
    ∷ lit "capture_on_failure"
    ∷ lit "write_run_metadata"
    ∷ lit "load_local_env"
    ∷ lit "opencode_parser_module"
    ∷ []

abbrev pub allowed_runtime_fields : List Str
allowed_runtime_fields = required_runtime_fields ++ optional_runtime_fields

-- `Number.isInteger(v) && v >= 0`
abbrev pub is_count : Value → Bool
is_count (num (integer (pos n))) = true
is_count _ = false

abbrev pub is_full_string : Value → Bool
is_full_string v = is_string v && not (is_blank (text v))

-- A field that is undefined, or passes a test.
abbrev pub optional : (Value → Bool) → Value → Bool
optional test v = is_undefined v || test v

unfoldable pub normalize_empty_output_retries : Value → Result Error Value
normalize_empty_output_retries v =
    if is_undefined v
    then ok (num (integer (pos 0)))
    else if is_count v
    then ok v
    else err bad_retries

abbrev pub keys : List (Str × Value) → List Str
keys [] = []
keys ((k, v) ∷ ps) = k ∷ keys ps

abbrev pub ignore : Result Error Value → Result Error (Unit {0})
ignore (ok v) = ok tt
ignore (err e) = err e

unfoldable pub validate_plugin_subdirs : Value → Result Error (Unit {0})
validate_plugin_subdirs v =
    if is_undefined v
    then ok tt
    else (guard (is_array v) bad_plugin_subdirs
        >> each (λ entry. guard (is_full_string entry) bad_plugin_subdirs) (elements v))

-- The fields that must be there, and no others but the optional ones.
unfoldable pub validate_presence : Value → Result Error (Unit {0})
validate_presence runtime = do
  each (λ f. guard (is_string (get f runtime)) (missing_field f)) string_fields
  guard (is_boolean (get (lit "print_logs") runtime)) (missing_field (lit "print_logs"))
  each (λ f. guard (includes allowed_runtime_fields f) (unexpected_field f))
      (keys (entries runtime))

-- The values of the optional fields.
unfoldable pub validate_optional : Value → Result Error (Unit {0})
validate_optional runtime = do
  each (λ f. guard (optional is_string (get f runtime)) (not_string f)) string_optional_fields
  each (λ f. guard (optional is_full_string (get f runtime)) (not_full_string f))
      non_empty_string_optional_fields
  each (λ f. guard (optional is_count (get f runtime)) (not_count f))
      non_negative_integer_optional_fields
  each (λ f. guard (optional is_boolean (get f runtime)) (not_boolean f)) boolean_optional_fields
  validate_plugin_subdirs (get (lit "plugin_subdirs") runtime)

unfoldable pub validate_runtime : Value → Result Error (Unit {0})
validate_runtime runtime = do
  validate_presence runtime
  ignore (normalize_empty_output_retries (get (lit "empty_output_retries") runtime))
  validate_optional runtime
