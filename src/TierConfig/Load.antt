-- ===== src/TierConfig/Load.antt =====
-- `loadEvalTierConfig`, `validateOpenCodeEvalAgent`, `loadOpenCodeAgents` and `resolveEvalTier`.
-- The configuration is what the TOML reader returns; `read_json` is JSON.parse of the file at a
-- path, with what either of the two throws. An error carries what its message names.
pub mod Sound
use promptfoo_eval_harness.Prelude.{
  ℕ, zero, suc, Bool, true, false, not, ◌&&◌, ◌||◌, List, [], ◌∷◌, ◌++◌, Str, lit, str_eq, is_blank,
  includes, if◌then◌else◌, Result, ok, err, ◌>>=◌, ◌>>◌, guard, each,
}
use promptfoo_eval_harness.Paths.{resolve_within_root}
use promptfoo_eval_harness.Js.{
  ℤ, pos, negsuc, Number, integer, nan, inexact, Value, undefined, num, str, object, get, has,
  entries, or_else, truthy, is_plain, is_string, is_number, is_undefined, text, lookup,
}
use promptfoo_eval_harness.TierConfig.RuntimeFields.{
  validate_runtime, normalize_empty_output_retries, is_full_string, keys,
}
use promptfoo_eval_harness.TierConfig.RuntimeFields

pub data Error : Type 0 where
  bad_runtime : RuntimeFields.Error → Error
  unreadable : Str → Error
  config_outside_root project_outside_root bad_agents : Error
  missing_tier bad_tier_agent unknown_tier bad_agent : Str → Error
  unexpected_tier_field missing_agent : Str → Str → Error
  bad_agent_field bad_permission : Str → Str → Error

-- A tier or a key of an agent is read as `o[key]`.
abbrev pub required_tiers : List Str
required_tiers = lit "light" ∷ lit "standard" ∷ lit "high" ∷ lit "x_high" ∷ []

abbrev pub required_agent_permission : List (Str × Str)
required_agent_permission =
    (lit "read", lit "allow")
    ∷ (lit "write", lit "allow")
    ∷ (lit "edit", lit "allow")
    ∷ (lit "bash", lit "allow")
    ∷ (lit "grep", lit "allow")
    ∷ (lit "glob", lit "allow")
    ∷ (lit "list", lit "allow")
    ∷ (lit "webfetch", lit "deny")
    ∷ []

abbrev pub agent_texts : List Str
agent_texts = lit "description" ∷ lit "mode" ∷ lit "model" ∷ []

-- `v === s`
unfoldable pub is_text : Str → Value → Bool
is_text s v = is_string v && str_eq (text v) s

-- `Number.isInteger(v) && v > 0`
unfoldable pub is_positive : Value → Bool
is_positive (num (integer (pos (suc n)))) = true
is_positive _ = false

abbrev pub grants : Value → Str × Str → Bool
grants agent (permission, action) = is_text action (get permission (get (lit "permission") agent))

unfoldable pub validate_open_code_eval_agent : Str → Value → Result Error (Unit {0})
validate_open_code_eval_agent name agent = do
  guard (is_plain agent) (bad_agent name)
  each (λ f. guard (is_full_string (get f agent)) (bad_agent_field name f)) agent_texts
  guard (is_text (lit "primary") (get (lit "mode") agent)) (bad_agent_field name (lit "mode"))
  let temperature = get (lit "temperature") agent
  guard (is_undefined temperature || is_number temperature)
      (bad_agent_field name (lit "temperature"))
  guard (is_positive (get (lit "steps") agent)) (bad_agent_field name (lit "steps"))
  guard (is_plain (get (lit "permission") agent)) (bad_agent_field name (lit "permission"))
  each (λ p. guard (grants agent p) (bad_permission name p.0)) required_agent_permission
  guard (not (has (lit "tools") (entries agent))) (bad_agent_field name (lit "tools"))

unfoldable pub load_open_code_agents : Result Error Value → Result Error Value
load_open_code_agents read = do
  parsed ← read
  let agents = or_else (get (lit "agent") parsed) (object [])
  guard (is_plain agents) bad_agents
  ok agents

unfoldable pub check_required : Value → Str → Result Error (Unit {0})
check_required tiers name =
    let tier = get name tiers in
    guard (truthy tier && is_string (get (lit "agent") tier)) (missing_tier name)

-- One tier of the loop: its agent, its fields, and the agent that it names.
unfoldable pub check_tier : Value → Str × Value → Result Error (Unit {0})
check_tier agents (name, tier) = do
  let agent = get (lit "agent") tier
  guard (is_full_string agent) (bad_tier_agent name)
  each (λ f. guard (str_eq f (lit "agent")) (unexpected_tier_field name f)) (keys (entries tier))
  guard (truthy (get (text agent) agents)) (missing_agent name (text agent))
  validate_open_code_eval_agent (text agent) (get (text agent) agents)

abbrev pub or_runtime_error {ℓ} : {A : Type ℓ} → Result RuntimeFields.Error A → Result Error A
or_runtime_error (ok a) = ok a
or_runtime_error (err e) = err (bad_runtime e)

-- The suite that is loaded. The other fields of `runtime` are those of the table, renamed.
pub record Suite : Type 0 where
  pub runtime : Value
  pub opencode_config : Str
  pub project_dir : Str
  pub empty_output_retries : Value
  pub tiers : List (Str × Value)
  pub agents : Value

abbrev pub only_agents : List (Str × Value) → List (Str × Value)
only_agents [] = []
only_agents ((name, tier) ∷ tiers) =
    (name, object ((lit "agent", get (lit "agent") tier) ∷ [])) ∷ only_agents tiers

unfoldable pub check_tiers : Value → Value → Result Error (Unit {0})
check_tiers agents tiers = do
  each (check_required tiers) required_tiers
  each (check_tier agents) (entries tiers)

module _ (base_dir project_root : Str) (read_json : Str → Result Error Value) where
  unfoldable pub load_eval_tier_config : Value → Result Error Suite
  load_eval_tier_config parsed = do
    let runtime = or_else (get (lit "runtime") parsed) (object [])
    let tiers = or_else (get (lit "tiers") parsed) (object [])
    or_runtime_error (validate_runtime runtime)
    config ←
        resolve_within_root base_dir (text (get (lit "opencode_config") runtime)) base_dir
          config_outside_root
    agents ← load_open_code_agents (read_json config)
    check_tiers agents tiers
    project ←
        resolve_within_root base_dir (text (get (lit "project_dir") runtime)) project_root
          project_outside_root
    retries ←
        or_runtime_error (normalize_empty_output_retries (get (lit "empty_output_retries") runtime))
    ok (record {
      runtime = runtime;
      opencode_config = config;
      project_dir = project;
      empty_output_retries = retries;
      tiers = only_agents (entries tiers);
      agents = agents;
    })

  unfoldable pub resolve_eval_tier : Suite → Str → Result Error Value
  resolve_eval_tier suite name =
      let tier = lookup name suite.tiers in if truthy tier then ok tier else err (unknown_tier name)
