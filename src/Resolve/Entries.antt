-- ===== src/Resolve/Entries.antt =====
-- `resolveMultiProviderConfig` and the providers that it emits. `to_text` is what a template literal
-- makes of a value that is no text.
pub mod Identity
pub mod Distinct
pub mod Loops
pub mod Cases
use promptfoo_eval_harness.Prelude.{
  ℕ, zero, suc, Bool, true, false, ◌&&◌, List, [], ◌∷◌, ◌++◌, map, Str, lit, str_eq, is_empty,
  if◌then◌else◌, Option, none, some, Result, ok, err, ◌>>=◌,
}
use promptfoo_eval_harness.Paths.Relative.{join_below}
use promptfoo_eval_harness.Js.{
  Value, null, str, object, array, get, lookup, entries, put, omit, spread, or_else, truthy,
  is_string, text, elements, decimal, index_entries,
}
use promptfoo_eval_harness.TierConfig.Shape.{parse_tier_config}
use promptfoo_eval_harness.TierConfig.Shape
use promptfoo_eval_harness.Resolve.{Roots}
use promptfoo_eval_harness.Resolve.Urls.{file_scheme}

abbrev pub bridge_file_url : Roots → Str
bridge_file_url roots = file_scheme ++ join_below (roots.framework_root) (lit "_node_bridge.js")

abbrev pub agent_server_file_url : Str
agent_server_file_url = lit "framework://openhands-agent-server-provider.js"

-- The cached run id, from the cache and a new UUID: the id, which is also the cache from then on.
abbrev pub get_run_id : Option Str → Str → Str
get_run_id none fresh = fresh
get_run_id (some run_id) fresh = if is_empty run_id then fresh else run_id

unfoldable pub build_case_id : Str → ℕ → ℕ → Str → Str
build_case_id tier_name provider_index scenario_index run_id =
    run_id
    ++ (58
        ∷ (tier_name
            ++ (58 ∷ (112 ∷ (decimal provider_index ++ (58 ∷ (115 ∷ decimal scenario_index)))))))

-- The own properties that `...v` copies: a text has its code units.
abbrev pub own : Value → List (Str × Value)
own (str s) = index_entries 0 (map (λ c. str (c ∷ [])) s)
own v = entries v

abbrev pub rest_of : List Str → List (Str × Value) → List (Str × Value)
rest_of [] ps = ps
rest_of (key ∷ keys) ps = omit key (rest_of keys ps)

-- The keys of a provider's configuration that the resolver owns.
abbrev pub owned : Value → Str → Str → List (Str × Value)
owned provider_entry run_id case_id =
    (lit "provider_kind", get (lit "provider_kind") provider_entry)
    ∷ (lit "model", or_else (get (lit "model") provider_entry) null)
    ∷ (lit "run_id", str run_id)
    ∷ (lit "case_id", str case_id)
    ∷ []

abbrev pub label_field : Value → List (Str × Value)
label_field label = if truthy label then (lit "provider_label", label) ∷ [] else []

abbrev pub is_agent_server : Value → Bool
is_agent_server provider_entry =
    let kind = get (lit "provider_kind") provider_entry in
    is_string kind && str_eq (text kind) (lit "openhands_agent_server")

-- What `_buildBridgeProviderEntry` puts under `config`.
unfoldable pub entry_config : Value → Str → Str → List (Str × Value) → List (Str × Value)
entry_config entry run_id case_id runtime_defaults =
    let label = get (lit "label") entry in
    let bare = lit "provider_kind" ∷ lit "model" ∷ lit "label" ∷ [] in
    if is_agent_server entry
    then spread (spread runtime_defaults (rest_of bare (own entry))) (owned entry run_id case_id)
    else spread
        (spread (spread runtime_defaults (rest_of (lit "agent_config" ∷ bare) (own entry)))
          (owned entry run_id case_id))
        (label_field label)

pub data Error : Type 0 where
  bad_config : Shape.Error → Error
  unknown_tier : Str → Error

module _ (roots : Roots) (to_text : Value → Str) where
  abbrev pub template : Value → Str
  template v = if is_string v then text v else to_text v

  abbrev pub entry_label : Str → Value → Value
  entry_label tier_name entry =
      let kind = get (lit "provider_kind") entry in
      let model = get (lit "model") entry in
      let prefix = tier_name ++ (47 ∷ (template kind ++ 47 ∷ [])) in
      or_else (get (lit "label") entry) (
        if is_agent_server entry
        then str (
            prefix
            ++ template (or_else (or_else model (get (lit "agent") entry)) (str (lit "unknown"))))
        else str (prefix ++ template (or_else model (str (lit "unknown")))))

  unfoldable pub build_bridge_provider_entry :
      Str → Value → ℕ → ℕ → Str → List (Str × Value) → Value
  build_bridge_provider_entry tier_name entry p s run_id runtime_defaults =
      let case_id = build_case_id tier_name p s run_id in
      object (
        (
          lit "id",
          str (if is_agent_server entry then agent_server_file_url else bridge_file_url roots),
        )
        ∷ (lit "label", entry_label tier_name entry)
        ∷ (lit "config", object (entry_config entry run_id case_id runtime_defaults))
        ∷ [])

  -- The three loops, from the inside out.
  module _ (run_id : Str) (runtime_defaults : List (Str × Value)) where
    unfoldable pub each_scenario : Str → Value → ℕ → ℕ → List Value → List Value
    each_scenario tier_name entry p s [] = []
    each_scenario tier_name entry p s (scenario ∷ scenarios) =
        build_bridge_provider_entry tier_name entry p s run_id runtime_defaults
        ∷ each_scenario tier_name entry p (suc s) scenarios

    unfoldable pub each_provider : Str → ℕ → List Value → List Value → List Value
    each_provider tier_name p [] scenarios = []
    each_provider tier_name p (entry ∷ rest) scenarios =
        each_scenario tier_name entry p 0 scenarios
        ++ each_provider tier_name (suc p) rest scenarios

    unfoldable pub each_tier : List (Str × Value) → List Value → List Value
    each_tier [] scenarios = []
    each_tier ((name, tier) ∷ tiers) scenarios =
        each_provider name 0 (elements (get (lit "providers") tier)) scenarios
        ++ each_tier tiers scenarios

  -- What follows the reading of the configuration; an empty name stands for none.
  unfoldable pub emit_providers : Value → List Value → Str → Str → Result Error (List Value)
  unfolding each_tier
  emit_providers normalized scenarios tier_name run_id =
      let tiers = get (lit "tiers") normalized in
      let tier = lookup tier_name (entries tiers) in
      let runtime_defaults = omit (lit "provider_id") (own (get (lit "runtime") normalized)) in
      if is_empty tier_name
      then ok (each_tier run_id runtime_defaults (entries tiers) scenarios)
      else if truthy tier
      then ok (each_tier run_id runtime_defaults ((tier_name, tier) ∷ []) scenarios)
      else err (unknown_tier tier_name)

  -- The providers, and the cached run id afterwards; an empty `given` stands for none.
  unfoldable pub resolve_multi_provider_config :
      Value → List Value → Str → Str → Option Str → Str → Result Error (List Value) × Option Str
  unfolding emit_providers
  resolve_multi_provider_config tier_config scenarios tier_name given cache fresh =
      elim (parse_tier_config tier_config) [
        | err e ↦ (err (bad_config e), cache)
        | ok normalized ↦
            if is_empty given
            then (
              emit_providers normalized scenarios tier_name (get_run_id cache fresh),
              some (get_run_id cache fresh),
            )
            else (emit_providers normalized scenarios tier_name given, cache)
      ]
