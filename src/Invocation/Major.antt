-- ===== src/Invocation/Major.antt =====
-- `normalizeMajor`, `parseMajor` and `resolveMajor`: the generation that a runner command speaks,
-- from an override, from a memoised probe of `<runner> --version`, or by default.
-- `to_number` is the runtime's `Number` on a string. The probe is what awaiting it gives: the
-- version output, null, or a rejection. Calls of `resolveMajor` that overlap are not modelled.
pub mod Cache
pub mod Group
use promptfoo_eval_harness.Prelude.{
  ℕ, zero, suc, ◌+◌, Bool, true, false, ◌&&◌, ◌||◌, not, Option, none, some, List, [], ◌∷◌, ◌++◌,
  Str, lit, str_eq, is_empty, is_blank, trim, leb, ltb, ◌==◌, if◌then◌else◌,
}
use promptfoo_eval_harness.Js.{
  ℤ, pos, negsuc, Number, integer, nan, inexact, Value, undefined, null, num, str, text, is_string,
  lookup,
}

pub data Major : Type 0 where
  v1 v2 : Major

abbrev pub default_major : Major
default_major = v1

-- `parsed >= V2 ? V2 : V1`, after the test for an integer of at least 1
unfoldable pub generation : Number → Option Major
generation (integer (pos zero)) = none
generation (integer (pos (suc zero))) = some v1
generation (integer (pos (suc (suc n)))) = some v2
generation (integer (negsuc n)) = none
generation nan = none
generation (inexact n) = none

abbrev pub or_default : Option Major → Major
or_default none = default_major
or_default (some m) = m

abbrev pub is_digit : ℕ → Bool
is_digit c = leb 48 c && leb c 57

-- The longest run of digits at the front, and what follows it.
unfoldable pub digit_run : Str → Str × Str
digit_run [] = ([], [])
digit_run (c ∷ s) =
    let rest = digit_run s in if is_digit c then (c ∷ rest.0, rest.1) else ([], c ∷ s)

abbrev dot_digit : Str → Bool
dot_digit (c ∷ d ∷ s) = c == 46 && is_digit d
dot_digit _ = false

-- `(\d+)\.\d+` at the front: a maximal run, since a digit behind the group is no dot.
abbrev group_at : Str × Str → Option Str
group_at (digits, rest) = if not (is_empty digits) && dot_digit rest then some digits else none

abbrev skip_v : Str → Str
skip_v [] = []
skip_v (c ∷ s) = if c == 118 then s else c ∷ s

-- The group of a match that begins at the front.
unfoldable pub group_here : Str → Option Str
unfolding digit_run
group_here s = group_at (digit_run (skip_v s))

-- `/v?(\d+)\.\d+/.exec(text)[1]`: the group of the leftmost match.
unfoldable pub version_group : Str → Option Str
version_group [] = none
version_group (c ∷ s) =
    let later = version_group s in
    elim (group_here (c ∷ s)) [ none ↦ later | some digits ↦ some digits ]

pub data Probe : Type 0 where
  output : Str → Probe
  no_output rejected : Probe

abbrev pub Cache : Type 0
Cache = List (Str × Major)

unfoldable pub cached : Str → Cache → Option Major
cached runner [] = none
cached runner ((k, m) ∷ cache) = if str_eq k runner then some m else cached runner cache

pub record Options : Type 0 where
  pub runner_command : Value
  pub env : List (Str × Value)

-- What a call gives, the cache behind it, and whether it probed.
pub record Resolved : Type 0 where
  pub major : Major
  pub cache : Cache
  pub probed : Bool

-- The command that is probed and memoised under.
unfoldable pub runner_of : Value → Str
runner_of v = if is_string v && not (is_blank (text v)) then trim (text v) else lit "opencode"

module _ (to_number : Str → Number) where
  normalize_text : Str → Option Major
  unfolding generation
  normalize_text trimmed = if is_empty trimmed then none else generation (to_number trimmed)

  -- On a number, the text that `String` prints reads back as the number. An array of one number
  -- is left out; of any other value `Number` is NaN.
  unfoldable pub normalize_major : Value → Option Major
  unfolding normalize_text generation
  normalize_major (str s) = normalize_text (trim s)
  normalize_major (num n) = generation n
  normalize_major _ = none

  unfoldable pub parse_major : Str → Option Major
  unfolding normalize_major version_group
  parse_major version_output = elim (version_group version_output) [
    | none ↦ none
    | some digits ↦ normalize_major (str digits)
  ]

  -- `null` is read as the empty text.
  unfoldable pub detect : Probe → Option Major
  unfolding parse_major
  detect (output text) = parse_major text
  detect no_output = parse_major []
  detect rejected = none

  unfoldable pub override_of : Options → Option Major
  override_of options = normalize_major (lookup (lit "OPENCODE_CLI_MAJOR") options.env)

  unfoldable pub answer : Option Major → Str → Cache → Probe → Resolved
  answer (some override) runner cache probe = record {
    major = override;
    cache = cache;
    probed = false;
  }
  answer none runner cache probe = elim (cached runner cache) [
    | some m ↦ record { major = m; cache = cache; probed = false }
    | none ↦ record {
      major = or_default (detect probe);
      cache = (runner, or_default (detect probe)) ∷ cache;
      probed = true;
    }
  ]

  unfoldable pub resolve_major : Options → Cache → Probe → Resolved
  unfolding answer
  resolve_major options cache probe =
      answer (override_of options) (runner_of options.runner_command) cache probe
