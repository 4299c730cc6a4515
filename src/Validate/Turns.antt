-- ===== src/Validate/Turns.antt =====
-- `_validateTurns` and the loops over the test cases.
pub mod Spec
use promptfoo_eval_harness.Prelude.{
  ℕ, zero, suc, ◌+◌, Bool, true, false, not, ◌&&◌, List, [], ◌∷◌, ◌++◌, Str, lit, str_eq, length,
  ltb, is_empty, if◌then◌else◌,
}
use promptfoo_eval_harness.Js.{
  Value, undefined, null, str, array, get, has, entries, truthy, or_else, is_string, is_array,
  elements, text, decimal,
}
use promptfoo_eval_harness.Validate.Received.{
  Rules, Error, error, no_turns, turns_not_array, turns_empty, bad_turn, too_many_turns,
}

-- `for (let i = n; ...)` that pushes what each element gives.
unfoldable pub collect {ℓ} : {A : Type ℓ} → (ℕ → A → List Error) → ℕ → List A → List Error
collect check n [] = []
collect check n (x ∷ xs) = check n x ++ collect check (suc n) xs

abbrev pub index : Str → ℕ → Str
index path n = path ++ (lit "[" ++ (decimal n ++ lit "]"))

abbrev pub is_nullish : Value → Bool
is_nullish undefined = true
is_nullish null = true
is_nullish _ = false

abbrev pub is_turn : Value → Bool
is_turn v = is_string v && not (is_empty (text v))

abbrev pub is_cli : Value → Bool
is_cli kind = is_string kind && str_eq (text kind) (lit "opencode_cli")

abbrev pub exceeds_cli : Value → List Value → Bool
exceeds_cli kind turns = is_cli kind && ltb 1 (length turns)

-- Whether a test case has turns of its own.
abbrev pub has_turns : Value → Bool
has_turns case =
    truthy case
    && truthy (get (lit "vars") case)
    && has (lit "turns") (entries (get (lit "vars") case))

-- `x.tests || x.cases || []`, where that is an array
abbrev pub tests_of : Value → List Value
tests_of v = elements (or_else (get (lit "tests") v) (or_else (get (lit "cases") v) (array [])))

module _ (rules : Rules) where
  abbrev pub check_turn : Str → ℕ → Value → List Error
  check_turn path i turn =
      if is_turn turn then [] else error rules (index path i) bad_turn turn ∷ []

  unfoldable pub check_turns : Str → Value → Value → List Value → List Error
  check_turns path kind raw [] = error rules path turns_empty (str (lit "[]")) ∷ []
  check_turns path kind raw (t ∷ ts) =
      collect (check_turn path) 0 (t ∷ ts)
      ++ (if exceeds_cli kind (t ∷ ts)
          then error rules path too_many_turns
              (str (lit "array of length " ++ decimal (length (t ∷ ts))))
            ∷ []
          else [])

  unfoldable pub validate_turns : Value → Str → Value → List Error
  validate_turns turns base kind =
      let path = base ++ lit ".turns" in
      if is_nullish turns
      then error rules path no_turns turns ∷ []
      else if not (is_array turns)
      then error rules path turns_not_array turns ∷ []
      else check_turns path kind turns (elements turns)

  unfoldable pub validate_test : Str → Value → ℕ → Value → List Error
  validate_test base kind i case =
      if has_turns case
      then validate_turns (get (lit "turns") (get (lit "vars") case))
          (index (base ++ lit "tests") i ++ lit ".vars") kind
      else []

  unfoldable pub validate_tests : Str → Value → Value → List Error
  validate_tests base kind v = collect (validate_test base kind) 0 (tests_of v)
