-- ===== src/Validate/Package.antt =====
-- `validate`: the providers and the test cases of every tier, and those outside the tiers.
pub mod Accepts
use promptfoo_eval_harness.Prelude.{
  ℕ, Bool, true, false, not, ◌&&◌, List, [], ◌∷◌, ◌++◌, Str, lit, if◌then◌else◌,
}
use promptfoo_eval_harness.Js.{Value, undefined, get, entries, truthy, is_object, elements}
use promptfoo_eval_harness.Validate.Received.{Rules, Error, error, not_object}
use promptfoo_eval_harness.Validate.Turns.{collect, index, validate_tests}
use promptfoo_eval_harness.Validate.Providers.{validate_provider}

abbrev pub providers_of : Value → List Value
providers_of tier = elements (get (lit "providers") tier)

-- The kind of a tier's first provider, when it has one.
abbrev pub kind_of_first : List Value → Value
kind_of_first [] = undefined
kind_of_first (p ∷ ps) = if truthy p then get (lit "provider_kind") p else undefined

abbrev has_first : List Value → Bool
has_first [] = false
has_first (p ∷ ps) = truthy p

unfoldable pub top_kind : List (Str × Value) → Value
top_kind [] = undefined
top_kind ((name, tier) ∷ tiers) =
    let later = top_kind tiers in
    if has_first (providers_of tier) then kind_of_first (providers_of tier) else later

module _ (rules : Rules) where
  unfoldable pub validate_tier : ℕ → Str × Value → List Error
  validate_tier i (name, tier) =
      if is_object tier
      then collect
          (λ j. validate_provider rules (index (index (lit "tiers") i ++ lit ".providers") j)) 0
          (providers_of tier)
        ++ validate_tests rules (index (lit "tiers") i ++ lit ".")
            (kind_of_first (providers_of tier)) tier
      else []

  -- The errors; the answer is `{ ok: true }` when there are none.
  unfoldable pub validate : Value → List Error
  validate config =
      let tiers = get (lit "tiers") config in
      if not (is_object config)
      then error rules (lit "(root)") not_object config ∷ []
      else if not (is_object tiers)
      then []
      else collect validate_tier 0 (entries tiers)
        ++ validate_tests rules [] (top_kind (entries tiers)) config
