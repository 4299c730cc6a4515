-- ===== src/Validate/Received.antt =====
-- `_safeReceived` and `_err`: what an error says of the value at fault.
pub mod Length
use promptfoo_eval_harness.Prelude.{
  ℕ, zero, suc, ◌+◌, Bool, true, false, ◌&&◌, ◌||◌, List, [], ◌∷◌, ◌++◌, Str, lit, length, leb, ltb,
  ◌==◌, if◌then◌else◌, Option, none, some,
}
use promptfoo_eval_harness.Js.{Number, Value, undefined, null, bool, num, str, arr, obj}

-- What reading the agent server's configuration gives.
pub data File : Type 0 where
  missing : File
  unparsable : Str → File
  parsed : Value → File

-- What a validation is called with. `resolver` is the optional module `model-resolver`, with the
-- message of what it throws; `quote` is JSON.stringify of a text, `print` is String of a number.
pub record Rules : Type 0 where
  pub kind_registry : List (Str × Value)
  pub extra_kinds : List Str
  pub eval_root : Str
  pub resolver : Str → Option Str
  pub read : Str → File
  pub quote : Str → Str
  pub print : Number → Str

-- `[A-Za-z0-9_\-]`
abbrev pub is_token_char : ℕ → Bool
is_token_char c =
    leb 65 c && leb c 90 || leb 97 c && leb c 122 || leb 48 c && leb c 57 || c == 95 || c == 45

-- `/[A-Za-z0-9_\-]{20,}/.test(s)`, with the length of the run that ends here.
unfoldable pub has_run : ℕ → Str → Bool
has_run run [] = false
has_run run (c ∷ s) =
    let longer = has_run (suc run) s in
    let fresh = has_run 0 s in
    if is_token_char c then if leb 19 run then true else longer else fresh

unfoldable pub is_secret_shaped : Str → Bool
is_secret_shaped s = has_run 0 s && ltb 30 (length s)

-- `s.slice(0, n)`
unfoldable pub take : ℕ → Str → Str
take zero s = []
take (suc n) [] = []
take (suc n) (c ∷ s) = c ∷ take n s

unfoldable pub truncated : Str → Str
truncated s = if ltb 64 (length s) then take 61 s ++ lit "..." else s

unfoldable pub safe_received : Rules → Value → Str
safe_received rules null = lit "null"
safe_received rules undefined = lit "undefined"
safe_received rules (bool true) = lit "true"
safe_received rules (bool false) = lit "false"
safe_received rules (num n) = rules.print n
safe_received rules (str s) =
    if is_secret_shaped s then lit "[REDACTED]" else rules.quote (truncated s)
safe_received rules (arr vs) = lit "object"
safe_received rules (obj fs) = lit "object"

-- Which message an error has. The text of `expected` and `message` follows from it, the path and
-- the names in it.
pub data Fault : Type 0 where
  not_object no_kind no_model not_resolvable no_adapter : Fault
  reserved unregistered : Str → Fault
  no_config bad_json bad_adapter_field : Fault
  no_turns turns_not_array turns_empty bad_turn too_many_turns : Fault

pub record Error : Type 0 where
  pub path : Str
  pub fault : Fault
  pub received : Str

abbrev pub error : Rules → Str → Fault → Value → Error
error rules path fault received = record {
  path = path;
  fault = fault;
  received = safe_received rules received;
}
