-- ===== src/Gates/Tests.antt =====
-- A call that settles the gates, and the theorem at this input.
use promptfoo_eval_harness.Prelude.{◌≡◌, refl, lit, false, none, [], ◌∷◌, str_eq}
use promptfoo_eval_harness.Js.{nan, integer, pos, num, object, get, entries, lookup, is_plain}
use promptfoo_eval_harness.Gates.{
  File, failing, parsed, Gates, Outside, acquire, get_global_limit, load_tier_concurrency_config,
  acquire_from, acquire_kind, caps_in, caps_of, find_cap, take_kind, width_of, get_per_kind_limit,
}
use promptfoo_eval_harness.Gates.Again.{acquire_again}

abbrev outside : File → Outside
outside file = record {
  parse_int = λ s. nan;
  raw = none;
  config_path = lit "/repo/config/eval-tiers.toml";
  read = λ path. file;
}

abbrev config : File
config =
    parsed
      (object ((lit "concurrency", object ((lit "codex_sdk", num (integer (pos 2))) ∷ [])) ∷ []))

abbrev denied : File
denied = failing (lit "EACCES")

abbrev fresh : Gates
fresh = record { global = none; kinds = []; cache = none; cache_path = []; override = false }

settles : (acquire (outside config) (lit "codex_sdk") fresh).thrown ≡ none
unfolding acquire acquire_from acquire_kind get_global_limit load_tier_concurrency_config caps_in
    caps_of find_cap take_kind width_of get_per_kind_limit get entries lookup is_plain str_eq lit
settles = refl

acquire_again_example :
    acquire
      (outside denied)
      (lit "codex_sdk")
      (acquire (outside config) (lit "codex_sdk") fresh).gates
    ≡ acquire (outside config) (lit "codex_sdk") fresh
acquire_again_example =
    acquire_again (outside config) (outside denied) (lit "codex_sdk") fresh refl settles
