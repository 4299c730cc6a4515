-- ===== src/TierConfig/Shape.antt =====
-- `parseTierConfig` and its parts. An error carries what its message names besides the path of the
-- configuration.
pub mod Laws
use promptfoo_eval_harness.Prelude.{
  Bool, true, false, not, ◌&&◌, ◌||◌, List, [], ◌∷◌, Str, lit, str_eq, is_blank, any, all,
  if◌then◌else◌, Result, ok, err, ◌>>=◌, ◌>>◌, guard, each,
}
use promptfoo_eval_harness.Js.{
  Value, null, str, object, array, get, entries, put, or_else, truthy, is_object, is_plain,
  is_array, is_string, text, elements,
}

pub data Error : Type 0 where
  not_plain unknown_version missing_tiers : Error
  tier_not_object providers_not_array missing_agent : Str → Error
  provider_not_object missing_kind : Str → Error

abbrev pub values : List (Str × Value) → List Value
values [] = []
values ((k, v) ∷ ps) = v ∷ values ps

abbrev pub has_providers : Value → Bool
has_providers tier = is_array (get (lit "providers") tier)

unfoldable pub is_v1_shape : Value → Bool
is_v1_shape raw =
    let version = get (lit "version") raw in
    let tiers = get (lit "tiers") raw in
    if is_string version && str_eq (text version) (lit "v1")
    then true
    else if not (is_object tiers)
    then false
    else any has_providers (values (entries tiers))

abbrev pub has_agent : Value → Bool
has_agent tier = is_string (get (lit "agent") tier)

unfoldable pub is_v0_shape : Value → Bool
is_v0_shape raw =
    let tiers = get (lit "tiers") raw in
    if not (is_object tiers) then false else all has_agent (values (entries tiers))

unfoldable pub validate_provider : Str → Value → Result Error (Unit {0})
validate_provider name p = do
  guard (is_object p) (provider_not_object name)
  let kind = get (lit "provider_kind") p
  guard (truthy kind && is_string kind) (missing_kind name)

unfoldable pub validate_tier : Str × Value → Result Error (Unit {0})
validate_tier (name, tier) = do
  guard (is_object tier) (tier_not_object name)
  guard (has_providers tier) (providers_not_array name)
  each (validate_provider name) (elements (get (lit "providers") tier))

unfoldable pub validate_v1_shape : Value → Result Error (Unit {0})
validate_v1_shape raw = do
  let tiers = get (lit "tiers") raw
  guard (is_object tiers) missing_tiers
  each validate_tier (entries tiers)

-- `raw.runtime && raw.runtime.opencode_config ? raw.runtime.opencode_config : null`
abbrev pub agent_config_of : Value → Value
agent_config_of runtime = or_else (get (lit "opencode_config") runtime) null

abbrev pub normal_tier : Value → Value → Value
normal_tier agent runtime = object (
    (
      lit "providers",
      array (
          object (
            (lit "provider_kind", str (lit "opencode_cli"))
            ∷ (lit "label", agent)
            ∷ (lit "model", null)
            ∷ (lit "agent_config", agent_config_of runtime)
            ∷ [])
          ∷ []),
    )
    ∷ [])

-- The loop of `_normalizeV0ToV1`, with `normalizedTiers`.
unfoldable pub normalize_tiers :
    Value → List (Str × Value) → List (Str × Value) → Result Error (List (Str × Value))
normalize_tiers runtime done [] = ok done
normalize_tiers runtime done ((name, tier) ∷ tiers) =
    let agent = get (lit "agent") tier in
    let rest = normalize_tiers runtime (put name (normal_tier agent runtime) done) tiers in
    if not (is_string agent) || is_blank (text agent) then err (missing_agent name) else rest

abbrev pub with_runtime : Value → List (Str × Value)
with_runtime runtime = if truthy runtime then (lit "runtime", runtime) ∷ [] else []

unfoldable pub normalize_v0_to_v1 : Value → Result Error Value
normalize_v0_to_v1 raw = do
  let runtime = get (lit "runtime") raw
  tiers ← normalize_tiers runtime [] (entries (get (lit "tiers") raw))
  ok (
      object (
        (lit "version", str (lit "v1-normalized"))
        ∷ (lit "tiers", object tiers)
        ∷ with_runtime runtime))

unfoldable pub parse_tier_config : Value → Result Error Value
parse_tier_config raw =
    if not (is_plain raw)
    then err not_plain
    else if is_v1_shape raw
    then validate_v1_shape raw
      >> ok (
          object (
            put (lit "version") (or_else (get (lit "version") raw) (str (lit "v1"))) (entries raw)))
    else if is_v0_shape raw
    then normalize_v0_to_v1 raw
    else err unknown_version
