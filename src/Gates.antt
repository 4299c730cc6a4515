-- ===== src/Gates.antt =====
-- scripts/framework/concurrency.js: how wide the gates are that a call passes, and which of them it
-- takes. `pLimit` is a gate of a given width here; how it queues calls is not modelled.
pub mod Again
mod Tests
use promptfoo_eval_harness.Prelude.{
  ℕ, zero, suc, Bool, true, false, ◌&&◌, ◌||◌, Option, none, some, List, [], ◌∷◌, Str, lit, str_eq,
  is_empty, if◌then◌else◌, Result, ok, err, ◌>>=◌,
}
use promptfoo_eval_harness.Js.{
  ℤ, pos, negsuc, Number, integer, nan, inexact, Value, num, get, entries, is_plain,
}

abbrev pub Caps : Type 0
Caps = List (Str × ℕ)

-- `Number.isInteger(n) && n > 0`
unfoldable pub positive : Number → Option ℕ
positive (integer (pos (suc n))) = some (suc n)
positive _ = none

-- What reading and parsing the configuration gives; any other failure to read is thrown.
pub data File : Type 0 where
  missing unparsable : File
  failing : Str → File
  parsed : Value → File

pub data Error : Type 0 where
  bad_variable unreadable : Str → Error

-- The width of the global gate once it is made, those of the gates of kinds, and what
-- `_loadTierConcurrencyConfig` keeps.
pub record Gates : Type 0 where
  pub global : Option ℕ
  pub kinds : Caps
  pub cache : Option Caps
  pub cache_path : Str
  pub override : Bool

-- `parse_int` is parseInt to the base 10; `raw` is AD_EVALS_MAX_CONCURRENCY.
pub record Outside : Type 0 where
  pub parse_int : Str → Number
  pub raw : Option Str
  pub config_path : Str
  pub read : Str → File

abbrev default_width : ℕ
default_width = 4

unfoldable pub width_of : (Str → Number) → Option Str → Result Error ℕ
unfolding positive
width_of parse_int none = ok default_width
width_of parse_int (some raw) =
    if is_empty raw
    then ok default_width
    else elim (positive (parse_int raw)) [ none ↦ err (bad_variable raw) | some n ↦ ok n ]

unfoldable pub get_global_limit : Outside → Gates → Result Error (ℕ × Gates)
get_global_limit out gates = elim gates.global [
  | some n ↦ ok (n, gates)
  | none ↦ do n ← width_of out.parse_int out.raw; ok (n, record gates { global = some n })
]

abbrev cap_of : Value → Option ℕ
cap_of (num n) = positive n
cap_of _ = none

-- The entries of the table that are positive integers, as a number or a bigint.
unfoldable pub caps_of : List (Str × Value) → Caps
caps_of [] = []
caps_of ((kind, v) ∷ table) =
    let rest = caps_of table in elim (cap_of v) [ none ↦ rest | some n ↦ (kind, n) ∷ rest ]

unfoldable pub caps_in : File → Result Error Caps
caps_in missing = ok []
caps_in unparsable = ok []
caps_in (failing message) = err (unreadable message)
caps_in (parsed config) =
    let table = get (lit "concurrency") config in
    ok (if is_plain table then caps_of (entries table) else [])

unfoldable pub find_cap : Str → Caps → Option ℕ
find_cap kind [] = none
find_cap kind ((k, n) ∷ caps) = if str_eq k kind then some n else find_cap kind caps

abbrev pub reload : Outside → Gates → Result Error (Caps × Gates)
reload out gates = do
  caps ← caps_in (out.read out.config_path)
  ok (caps, record gates { cache = some caps; cache_path = out.config_path })

unfoldable pub load_tier_concurrency_config : Outside → Gates → Result Error (Caps × Gates)
load_tier_concurrency_config out gates = elim gates.cache [
  | none ↦ reload out gates
  | some caps ↦
      if gates.override || str_eq gates.cache_path out.config_path
      then ok (caps, gates)
      else reload out gates
]

-- The gate of a kind keeps the width that it was made with.
unfoldable pub get_per_kind_limit : Str → ℕ → Gates → ℕ × Gates
get_per_kind_limit kind cap gates = elim (find_cap kind gates.kinds) [
  | some n ↦ (n, gates)
  | none ↦ (cap, record gates { kinds = (kind, cap) ∷ gates.kinds })
]

pub data Slot : Type 0 where
  global_slot : ℕ → Slot
  kind_slot : Str → ℕ → Slot

-- What a call of `acquire` holds when it ends, and what it threw; `release` gives back what it
-- holds.
pub record Acquired : Type 0 where
  pub slots : List Slot
  pub gates : Gates
  pub thrown : Option Error

abbrev only_global : ℕ → Gates → Option Error → Acquired
only_global width gates thrown = record {
  slots = global_slot width ∷ [];
  gates = gates;
  thrown = thrown;
}

unfoldable pub take_kind : Str → ℕ → Option ℕ → Gates → Acquired
take_kind kind width none gates = only_global width gates none
take_kind kind width (some zero) gates = only_global width gates none
take_kind kind width (some (suc n)) gates =
    let taken = get_per_kind_limit kind (suc n) gates in
    record {
      slots = global_slot width ∷ kind_slot kind taken.0 ∷ [];
      gates = taken.1;
      thrown = none;
    }

-- Behind the global slot. A configuration that cannot be read throws out of `acquire`.
unfoldable pub acquire_kind : Str → ℕ → Gates → Result Error (Caps × Gates) → Acquired
acquire_kind kind width gates (err e) = only_global width gates (some e)
acquire_kind kind width gates (ok (caps, loaded)) = take_kind kind width (find_cap kind caps) loaded

unfoldable pub acquire_from : Outside → Str → Gates → Result Error (ℕ × Gates) → Acquired
acquire_from out kind gates (err e) = record { slots = []; gates = gates; thrown = some e }
acquire_from out kind gates (ok (width, made)) =
    if is_empty kind
    then only_global width made none
    else acquire_kind kind width made (load_tier_concurrency_config out made)

-- No kind is the empty text.
unfoldable pub acquire : Outside → Str → Gates → Acquired
acquire out kind gates = acquire_from out kind gates (get_global_limit out gates)
