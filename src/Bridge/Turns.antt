-- ===== src/Bridge/Turns.antt =====
-- `parseProviderConfig` and `parseTurns`: the configuration of a provider and the turns of a row.
use promptfoo_eval_harness.Prelude.{
  Bool, true, false, not, ◌&&◌, Option, none, some, List, [], ◌∷◌, Str, lit, is_empty, is_blank,
  if◌then◌else◌, Result, ok, err,
}
use promptfoo_eval_harness.Js.{
  Value, undefined, null, str, object, entries, get, truthy, is_object, is_string, elements, text,
  omit,
}
use promptfoo_eval_harness.Bridge.Runtime.{Runtime}
use promptfoo_eval_harness.Bridge.Report.{Config}

abbrev pub bad_config : Str → Value
bad_config message =
    object ((lit "message", str message) ∷ (lit "code", str (lit "BAD_CONFIG")) ∷ [])

-- The keys of an array are no provider's, and an array has no `provider_kind`.
unfoldable pub parse_provider_config : Value → Result Value Config
parse_provider_config raw =
    if not (is_object raw)
    then err (bad_config (lit "provider config must be an object"))
    else if not
        (truthy (get (lit "provider_kind") raw) && is_string (get (lit "provider_kind") raw))
    then err (bad_config (lit "provider config missing required field: provider_kind"))
    else ok (omit (lit "basePath") (entries raw))

abbrev some_elements : Value → Option (List Value)
some_elements v = elim (elements v) [ [] ↦ none | t ∷ ts ↦ some (t ∷ ts) ]

abbrev is_text : Value → Bool
is_text v = is_string v && not (is_blank (text v))

-- The turns that a text stands for: a non-empty JSON array, or the text itself.
unfoldable pub decoded : Runtime → Str → List Value
decoded rt s = elim (rt.json_parse s) [
  | none ↦ str s ∷ []
  | some v ↦ elim (some_elements v) [ none ↦ str s ∷ [] | some turns ↦ turns ]
]

unfoldable pub parse_turns : Runtime → Value → Value → Option (List Value)
parse_turns rt raw prompt = elim (some_elements raw) [
  | some turns ↦ some turns
  | none ↦
      if is_text raw
      then some (decoded rt (text raw))
      else if is_text prompt
      then some (prompt ∷ [])
      else none
]

-- A lone turn that is missing or empty.
abbrev pub is_missing : Value → Bool
is_missing undefined = true
is_missing null = true
is_missing (str s) = is_empty s
is_missing _ = false

-- The turns to send, unless `noUsableTurn`.
unfoldable pub usable_turns : Runtime → Value → Value → Option (List Value)
usable_turns rt raw prompt = elim (parse_turns rt raw prompt) [
  | none ↦ none
  | some [] ↦ none
  | some (t ∷ []) ↦ if is_missing t then none else some (t ∷ [])
  | some (t ∷ u ∷ ts) ↦ some (t ∷ u ∷ ts)
]
