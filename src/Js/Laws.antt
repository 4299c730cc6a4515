-- ===== src/Js/Laws.antt =====
-- Properties of an object after it is written, spread or rebuilt, and numbers in decimal.
use promptfoo_eval_harness.Prelude.{
  ℕ, zero, suc, ◌+◌, ◌-◌, ◌*◌, ◌/◌, ◌%◌, ◌<◌, ◌≡◌, refl, ap, List, [], ◌∷◌, ◌++◌, arith, Str,
  str_eq, str_eq_iff, str_eq_refl, ◌∙◌, ltb, if◌then◌else◌, Bool-cases, inl, inr, true, false, not,
  all, all-append, ◌==◌,
}
use promptfoo_eval_harness.Js.{
  Value, undefined, items, to_items, fields, to_fields, lookup, put, omit, digits_from, decimal,
}

pub items-to_items : (vs : List Value) → items (to_items vs) ≡ vs
items-to_items [] = refl
items-to_items (v ∷ vs) = ap (◌∷◌ v) (items-to_items vs)

pub fields-to_fields : (ps : List (Str × Value)) → fields (to_fields ps) ≡ ps
fields-to_fields [] = refl
fields-to_fields ((k, v) ∷ ps) = ap (◌∷◌ (k, v)) (fields-to_fields ps)

pub lookup-put :
    (key j : Str) (v : Value) (ps : List (Str × Value))
    → lookup j (put key v ps) ≡ (if str_eq key j then v else lookup j ps)
unfolding lookup put
lookup-put key j v [] = refl
lookup-put key j v ((k, w) ∷ ps) =
    ground (arith, str_eq_iff key j, str_eq_iff k key, str_eq_iff k j, lookup-put key j v ps)

pub lookup-put_same :
    (key : Str) (v : Value) (ps : List (Str × Value)) → lookup key (put key v ps) ≡ v
lookup-put_same key v ps = lookup-put key key v ps ∙ rw (str_eq_refl key) refl

pub lookup-put_other :
    (key j : Str) (v : Value) (ps : List (Str × Value))
    → str_eq key j ≡ false
    → lookup j (put key v ps) ≡ lookup j ps
lookup-put_other key j v ps h = lookup-put key j v ps ∙ rw h refl

pub lookup-omit :
    (key j : Str) (ps : List (Str × Value))
    → lookup j (omit key ps) ≡ (if str_eq key j then undefined else lookup j ps)
unfolding lookup omit
lookup-omit key j [] = ground arith
lookup-omit key j ((k, w) ∷ ps) =
    ground (arith, str_eq_iff key j, str_eq_iff k key, str_eq_iff k j, lookup-omit key j ps)

-- The number that a run of decimal digits stands for.
abbrev value_of : ℕ → Str → ℕ
value_of acc [] = acc
value_of acc (c ∷ s) = value_of (acc * 10 + (c - 48)) s

value_of-concat :
    (acc : ℕ) (s : Str) (c : ℕ) → value_of acc (s ++ c ∷ []) ≡ value_of acc s * 10 + (c - 48)
value_of-concat acc [] c = refl
value_of-concat acc (d ∷ s) c = value_of-concat (acc * 10 + (d - 48)) s c

value_of-digits_from : (f n : ℕ) → n < f → value_of 0 (digits_from f n) ≡ n
unfolding digits_from
value_of-digits_from zero n h = elim h [ ]
value_of-digits_from (suc f) n h = elim (Bool-cases (ltb n 10)) [
  | inl small ↦ rw small (ground arith)
  | inr big ↦
      rw (big, value_of-concat 0 (digits_from f (n / 10)) (48 + n % 10))
        (ground (arith, value_of-digits_from f (n / 10)))
]

-- Two numbers that print alike are equal.
pub decimal_injective : (m n : ℕ) → decimal m ≡ decimal n → m ≡ n
unfolding decimal
decimal_injective m n e =
    ground
      (arith, ap (value_of 0) e, value_of-digits_from (suc m) m, value_of-digits_from (suc n) n)

-- A number in decimal has no colon, which separates the parts of an id.
digits_from-no_colon : (f n : ℕ) → all (λ c. not (c == 58)) (digits_from f n) ≡ true
unfolding digits_from
digits_from-no_colon zero n = refl
digits_from-no_colon (suc f) n = elim (Bool-cases (ltb n 10)) [
  | inl small ↦ rw small (ground arith)
  | inr big ↦
      rw (big, all-append (λ c. not (c == 58)) (digits_from f (n / 10)) ((48 + n % 10) ∷ []))
        (ground (arith, digits_from-no_colon f (n / 10)))
]

pub decimal-no_colon : (n : ℕ) → all (λ c. not (c == 58)) (decimal n) ≡ true
unfolding decimal
decimal-no_colon n = digits_from-no_colon (suc n) n
