-- ===== src/Validate/Package/Accepts.antt =====
-- The package configurations without an error, described by what they hold.

use promptfoo_eval_harness.Prelude.{◌≡◌, ◌⊎◌, true, false, Str, lit, All}
use promptfoo_eval_harness.Js.{Value, get, entries, is_object}
use promptfoo_eval_harness.Validate.Received.{Rules}
use promptfoo_eval_harness.Validate.Turns.{tests_of}
use promptfoo_eval_harness.Validate.Package.{providers_of, kind_of_first, top_kind}
use promptfoo_eval_harness.Validate.Turns.Spec.{IsTest}
use promptfoo_eval_harness.Validate.Providers.Spec.{IsProvider}

abbrev pub IsTier : Rules → Str × Value → Type 0
IsTier rules (name, tier) =
    (is_object tier ≡ false)
    ⊎ (All (IsProvider rules) (providers_of tier)
        × All (IsTest (kind_of_first (providers_of tier))) (tests_of tier))

abbrev pub IsPackage : Rules → Value → Type 0
IsPackage rules config =
    (is_object config ≡ true)
    × ((is_object (get (lit "tiers") config) ≡ false)
        ⊎ (All (IsTier rules) (entries (get (lit "tiers") config))
            × All (IsTest (top_kind (entries (get (lit "tiers") config)))) (tests_of config)))
