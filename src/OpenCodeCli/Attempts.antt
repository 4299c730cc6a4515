-- ===== src/OpenCodeCli/Attempts.antt =====
-- How often the CLI is run for one prompt, and what comes of it.
use mathlib.Core.Bool.{false≢true}
use promptfoo_eval_harness.Prelude.{
  ℕ, zero, suc, ◌+◌, ◌<◌, ◌≤◌, ◌≡◌, refl, ap, sym, ◌∙◌, Bool, true, false, List, not, ◌⊎◌,
  Result-cases, arith, Str, lit, is_empty, trim, ltb, Bool-cases, inl, inr, Result, ok, err,
}
use promptfoo_eval_harness.Js.{Value, get}
use promptfoo_eval_harness.Invocation.Major.{Cache}
use promptfoo_eval_harness.OpenCodeCli.{
  Surroundings, RunOptions, empty_output, normalize_retry_count, settle, attempts,
  call_with_empty_output_retries,
}

-- What ends the loop: a throw, or an output that is not blank.
abbrev pub final : Result Str Str → Bool
final (err message) = true
final (ok printed) = not (is_empty (trim printed))

-- What the loop makes of a final answer.
abbrev pub trimmed : Result Str Str → Result Str Str
trimmed (err message) = err message
trimmed (ok printed) = ok (trim printed)

module _ (answer : ℕ → Result Str Str) (around : Surroundings) where
  -- The runner whose runs answer in turn; the world counts the runs.
  abbrev pub counting : List Str → RunOptions → ℕ → Result Str Str × ℕ
  counting words options runs = (answer runs, suc runs)

  settle-final :
      (r : Result Str Str) (after : ℕ) (again : ℕ → Result Str Str × ℕ)
      → final r ≡ true
      → settle counting around (r, after) again ≡ (trimmed r, after)
  unfolding settle
  settle-final r after again h = elim (Result-cases r) [
    | inl (e, f) ↦ rw f refl
    | inr (printed, f) ↦ elim (Bool-cases (is_empty (trim printed))) [
      | inl blank ↦ elim (false≢true (rw (f, blank) at h)) [ ]
      | inr full ↦ rw (f, full) refl
    ]
  ]

  settle-blank :
      (r : Result Str Str) (after : ℕ) (again : ℕ → Result Str Str × ℕ)
      → final r ≡ false
      → settle counting around (r, after) again ≡ again after
  unfolding settle
  settle-blank r after again h = elim (Result-cases r) [
    | inl (e, f) ↦ elim (false≢true (sym (rw f at h))) [ ]
    | inr (printed, f) ↦ elim (Bool-cases (is_empty (trim printed))) [
      | inl blank ↦ rw (f, blank) refl
      | inr full ↦ elim (false≢true (sym (rw (f, full) at h))) [ ]
    ]
  ]

  -- The runs from `start` on are blank up to the last one, which is final, or they all are blank.
  abbrev pub Outcome : ℕ → ℕ → ℕ → Result Str Str × ℕ → Type 0
  Outcome start left max_attempts result =
      ((last : ℕ) × (start ≤ last)
        × (last < start + left)
        × ((j : ℕ) → start ≤ j → j < last → final (answer j) ≡ false)
        × (final (answer last) ≡ true)
        × (result ≡ (trimmed (answer last), suc last)))
      ⊎ (((j : ℕ) → start ≤ j → j < start + left → final (answer j) ≡ false)
          × (result ≡ (err (empty_output max_attempts), start + left)))

  blank_from :
      (start end : ℕ)
      → final (answer start) ≡ false
      → ((j : ℕ) → suc start ≤ j → j < end → final (answer j) ≡ false)
      → (j : ℕ) → start ≤ j
      → j < end
      → final (answer j) ≡ false
  blank_from start end h later j p q = elim (Bool-cases (ltb start j)) [
    | inl more ↦ later j (ground arith) q
    | inr same ↦ let e : j ≡ start = ground arith in rw e h
  ]

  Outcome-later :
      (start left max_attempts : ℕ) (result : Result Str Str × ℕ)
      → final (answer start) ≡ false
      → Outcome (suc start) left max_attempts result
      → Outcome start (suc left) max_attempts result
  Outcome-later start left max_attempts result h (inl (last, a, b, before, is_final, e)) =
      inl (last, omega (arith, a), omega (arith, b), blank_from start last h before, is_final, e)
  Outcome-later start left max_attempts result h (inr (all_blank, e)) = inr (
    blank_from start (start + suc left) h (λ j p q. all_blank j p (omega (arith, q))),
    e ∙ ap (λ n. (err (empty_output max_attempts), n)) (omega arith),
  )

  attempts-Outcome :
      (left max_attempts start : ℕ) (words : List Str) (options : RunOptions)
      → Outcome start left max_attempts
          (attempts counting around left max_attempts words options start)
  unfolding attempts
  attempts-Outcome zero max_attempts start words options = inr (
    λ j p q. let no : ⊥ = omega (arith, p, q) in elim no [ ],
    ap (λ n. (err (empty_output max_attempts), n)) (omega arith),
  )
  attempts-Outcome (suc left) max_attempts start words options =
      elim (Bool-cases (final (answer start))) [
        | inl is_final ↦ inl (
          start,
          omega arith,
          omega arith,
          λ j p q. let no : ⊥ = omega (arith, p, q) in elim no [ ],
          is_final,
          settle-final (answer start) (suc start) _ is_final,
        )
        | inr is_blank ↦
            rw
              (settle-blank (answer start) (suc start)
                (attempts counting around left max_attempts words options) is_blank)
              (Outcome-later start left max_attempts _ is_blank
                (attempts-Outcome left max_attempts (suc start) words options))
      ]

  -- The CLI is run for a prompt until a run throws or prints something, and at most once more than
  -- the retries that are configured. What is returned is what that run threw or printed, trimmed; if
  -- every run printed nothing but white space, it has been run just that often, and the error
  -- says how often.
  pub call_with_empty_output_retries-Outcome :
      (prompt : Str) (config signal : Value) (cache : Cache) (retries : ℕ)
      → normalize_retry_count (get (lit "empty_output_retries") config) ≡ ok retries
      → Outcome 0
          (suc retries)
          (suc retries)
          (call_with_empty_output_retries counting around prompt config signal cache 0).0
  unfolding call_with_empty_output_retries
  call_with_empty_output_retries-Outcome prompt config signal cache retries h =
      rw (call_with_empty_output_retries, h) (attempts-Outcome (suc retries) (suc retries) 0 _ _)
