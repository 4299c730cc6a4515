-- ===== src/Validate/Turns/Spec.antt =====
-- The turns and the test cases without an error, and the loops that find none.

use promptfoo_eval_harness.Prelude.{
  ℕ, suc, ◌≡◌, refl, ap, ◌↔◌, ◌⊎◌, inl, inr, Bool, true, false, List, [], ◌∷◌, ◌++◌, arith, Str,
  lit, is_empty, All, Bool-cases, if◌then◌else◌,
}
use promptfoo_eval_harness.Js.{
  Value, str, arr, Items, nil, cons, items, get, is_string, is_array, elements,
}
use promptfoo_eval_harness.Validate.Received.{Rules, Error}
use promptfoo_eval_harness.Validate.Turns.{
  collect, is_turn, exceeds_cli, has_turns, tests_of, check_turn, check_turns, validate_turns,
  validate_test, validate_tests,
}

append-nil_iff {ℓ} : {A : Type ℓ} (xs ys : List A) → ((xs ++ ys) ≡ []) ↔ ((xs ≡ []) × (ys ≡ []))
append-nil_iff [] ys = (λ h. (refl, h), λ h. h.1)
append-nil_iff (x ∷ xs) ys = (λ h. cc, λ h. cc)

-- Nothing is found in two parts exactly when what each of them stands for holds.
pub no_errors {κ μ} :
    (P : Type κ) (Q : Type μ) (xs ys : List Error)
    → ((xs ≡ []) ↔ P)
    → ((ys ≡ []) ↔ Q)
    → ((xs ++ ys) ≡ []) ↔ (P × Q)
no_errors P Q xs ys (to, from) (into, out_of) =
    let (split, join) = append-nil_iff xs ys in
    (λ h. (to (split h).0, into (split h).1), λ h. join (from h.0, out_of h.1))

pub collect_iff {ℓ κ} :
    {A : Type ℓ} (P : A → Type κ) (check : ℕ → A → List Error) (n : ℕ) (xs : List A)
    → ((i : ℕ) (x : A) → (check i x ≡ []) ↔ P x)
    → (collect check n xs ≡ []) ↔ All P xs
unfolding collect
collect_iff P check n [] same = (λ h. tt, λ h. refl)
collect_iff P check n (x ∷ xs) same =
    no_errors (P x) (All P xs) (check n x) (collect check (suc n) xs) (same n x)
      (collect_iff P check (suc n) xs same)

-- A text that is not empty.
abbrev pub IsTurn : Value → Type 0
IsTurn v = (s : Str) × (v ≡ str s) × (is_empty s ≡ false)

-- An array of such texts, at least one, and at most one for the command-line provider.
abbrev pub IsTurns : Value → Value → Type 0
IsTurns kind v =
    (t : Value) × (ts : Items) × (v ≡ arr (cons t ts))
    × All IsTurn (t ∷ items ts)
    × (exceeds_cli kind (t ∷ items ts) ≡ false)

abbrev pub IsTest : Value → Value → Type 0
IsTest kind case =
    (has_turns case ≡ false) ⊎ IsTurns kind (get (lit "turns") (get (lit "vars") case))

-- What an array of turns holds.
turns_parts :
    (kind : Value) (vs : Items)
    → IsTurns kind (arr vs)
    → All IsTurn (items vs) × (exceeds_cli kind (items vs) ≡ false)
turns_parts kind vs (t, ts, e, h, k) = rw (ap elements e) (h, k)

no_turns_in_nil : (kind : Value) → IsTurns kind (arr nil) → ⊥
no_turns_in_nil kind (t, ts, e, h, k) = cc

is_turn_iff : (v : Value) → (is_turn v ≡ true) ↔ IsTurn v
unfolding is_string
is_turn_iff (str s) = (λ h. (s, refl, ground arith), λ h. ground arith)
is_turn_iff v = ground arith

within_iff : (b : Bool) (e : Error) → ((if b then e ∷ [] else []) ≡ []) ↔ (b ≡ false)
within_iff b e = ground arith

module _ (rules : Rules) where
  check_turn_iff : (path : Str) (i : ℕ) (t : Value) → (check_turn rules path i t ≡ []) ↔ IsTurn t
  check_turn_iff path i t = ground (arith, is_turn_iff t)

  arr-IsTurns_iff :
      (path : Str) (kind raw : Value) (vs : Items)
      → (check_turns rules path kind raw (items vs) ≡ []) ↔ IsTurns kind (arr vs)
  unfolding check_turns
  arr-IsTurns_iff path kind raw nil = (λ h. cc, λ h. absurd (no_turns_in_nil kind h))
  arr-IsTurns_iff path kind raw (cons t ts) =
      let (to, from) =
        no_errors (All IsTurn (t ∷ items ts)) (exceeds_cli kind (t ∷ items ts) ≡ false)
          (collect (check_turn rules path) 0 (t ∷ items ts)) _
          (collect_iff IsTurn (check_turn rules path) 0 (t ∷ items ts) (check_turn_iff path))
          (within_iff (exceeds_cli kind (t ∷ items ts)) _) in
      (λ h. (t, ts, refl, (to h).0, (to h).1), λ h. from (turns_parts kind (cons t ts) h))

  validate_turns_iff :
      (turns : Value) (base : Str) (kind : Value)
      → (validate_turns rules turns base kind ≡ []) ↔ IsTurns kind turns
  unfolding validate_turns is_array
  validate_turns_iff (arr vs) base kind = arr-IsTurns_iff _ kind (arr vs) vs
  validate_turns_iff turns base kind = ground arith

  validate_test_iff :
      (base : Str) (kind : Value) (i : ℕ) (case : Value)
      → (validate_test rules base kind i case ≡ []) ↔ IsTest kind case
  unfolding validate_test
  validate_test_iff base kind i case = elim (Bool-cases (has_turns case)) [
    | inl own ↦
        let (to, from) = validate_turns_iff (get (lit "turns") (get (lit "vars") case)) _ kind in
        rw own (λ h. inr (to h), λ h. elim h [ inl e ↦ cc | inr turns ↦ from turns ])
    | inr other ↦ rw other (λ h. inl refl, λ h. refl)
  ]

  pub validate_tests_iff :
      (base : Str) (kind v : Value)
      → (validate_tests rules base kind v ≡ []) ↔ All (IsTest kind) (tests_of v)
  unfolding validate_tests
  validate_tests_iff base kind v =
      collect_iff (IsTest kind) (validate_test rules base kind) 0 (tests_of v)
        (validate_test_iff base kind)
