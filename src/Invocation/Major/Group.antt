-- ===== src/Invocation/Major/Group.antt =====
-- What the version expression finds in the output of `<runner> --version`.
use promptfoo_eval_harness.Prelude.{
  ℕ, ◌≡◌, refl, ◌∙◌, inl, inr, Bool-cases, Bool, true, false, not, none, some, [], ◌∷◌, ◌++◌, arith,
  Str, ◌==◌, is_empty, all,
}
use promptfoo_eval_harness.Invocation.Major.{
  is_digit, digit_run, version_group, group_at, group_here,
}

abbrev pub no_digits : Str → Bool
no_digits = all (λ c. not (is_digit c))

digit_run-append :
    (digits rest : Str) (c : ℕ)
    → all is_digit digits ≡ true
    → is_digit c ≡ false
    → digit_run (digits ++ (c ∷ rest)) ≡ (digits, c ∷ rest)
unfolding digit_run
digit_run-append [] rest c h k = rw k
digit_run-append (d ∷ digits) rest c h k = ground (arith, digit_run-append digits rest c)

group_here-digits :
    (digits after : Str) (d : ℕ)
    → all is_digit digits ≡ true
    → is_empty digits ≡ false
    → is_digit d ≡ true
    → group_here (digits ++ (46 ∷ d ∷ after)) ≡ some digits
unfolding group_here
group_here-digits [] after d h k l = cc
group_here-digits (c ∷ digits) after d h k l =
    let digit : is_digit c ≡ true = ground arith in
    let not_v : (c == 118) ≡ false = ground arith in
    let more : all is_digit digits ≡ true = ground arith in
    rw (not_v, digit_run-append digits (d ∷ after) 46 more refl) (ground arith)

group_here-none :
    (c : ℕ) (s : Str) → is_digit c ≡ false → (c == 118) ≡ false → group_here (c ∷ s) ≡ none
unfolding group_here digit_run
group_here-none c s h k = rw (k, h)

group_here_v : (c : ℕ) (s : Str) → (c == 118) ≡ true → group_here (c ∷ s) ≡ group_at (digit_run s)
unfolding group_here
group_here_v c s h = rw h

group_after_v :
    (digits after : Str) (d c : ℕ)
    → (c == 118) ≡ true
    → all is_digit digits ≡ true
    → is_empty digits ≡ false
    → is_digit d ≡ true
    → group_here (c ∷ (digits ++ (46 ∷ d ∷ after))) ≡ some digits
group_after_v digits after d c v h k l =
    group_here_v c _ v ∙ rw (digit_run-append digits (d ∷ after) 46 h refl) (ground arith)

group_after_v_none :
    (c e : ℕ) (s : Str) → (c == 118) ≡ true → is_digit e ≡ false → group_here (c ∷ e ∷ s) ≡ none
unfolding digit_run
group_after_v_none c e s v h = group_here_v c _ v ∙ rw h

found : (c : ℕ) (s : Str) {d : Str} → group_here (c ∷ s) ≡ some d → version_group (c ∷ s) ≡ some d
unfolding version_group
found c s h = rw (h, version_group)

missed : (c : ℕ) (s : Str) → group_here (c ∷ s) ≡ none → version_group (c ∷ s) ≡ version_group s
unfolding version_group
missed c s h = rw (h, version_group)

-- In an output whose first digits are followed by a dot and another digit, the expression's group
-- is those digits: all of them, with or without a `v` or any other text before them.
pub version_group-append :
    (before digits after : Str) (d : ℕ)
    → no_digits before ≡ true
    → all is_digit digits ≡ true
    → is_empty digits ≡ false
    → is_digit d ≡ true
    → version_group (before ++ (digits ++ (46 ∷ d ∷ after))) ≡ some digits
version_group-append [] [] after d b h k l = cc
version_group-append [] (c ∷ digits) after d b h k l =
    found c _ (group_here-digits (c ∷ digits) after d h k l)
version_group-append (c ∷ []) digits after d b h k l = elim (Bool-cases (c == 118)) [
  | inl v ↦ found c _ (group_after_v digits after d c v h k l)
  | inr other ↦
      missed c _ (group_here-none c _ (ground arith) other)
      ∙ version_group-append [] digits after d refl h k l
]
version_group-append (c ∷ e ∷ before) digits after d b h k l =
    let later = version_group-append (e ∷ before) digits after d (ground arith) h k l in
    elim (Bool-cases (c == 118)) [
      | inl v ↦ missed c _ (group_after_v_none c e _ v (ground arith)) ∙ later
      | inr other ↦ missed c _ (group_here-none c _ (ground arith) other) ∙ later
    ]
