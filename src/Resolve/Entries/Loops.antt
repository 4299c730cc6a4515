-- ===== src/Resolve/Entries/Loops.antt =====
-- The case ids that the three loops make.

use promptfoo_eval_harness.Prelude.{
  ℕ, suc, ◌+◌, ◌≤◌, ◌<◌, ◌≡◌, ◌≢◌, refl, sym, ap, ◌∙◌, subst, ◌↔◌, ◌⊎◌, inl, inr, true, false, List,
  [], ◌∷◌, ◌++◌, arith, length, Str, lit, str_eq, str_eq_iff, is_empty, includes, includes-append,
  Bool-cases, ◌==◌,
}
use promptfoo_eval_harness.Js.{Value, get, elements, lookup}
use promptfoo_eval_harness.Resolve.{Roots}
use promptfoo_eval_harness.Resolve.Entries.{build_case_id, each_scenario, each_provider, each_tier}
use promptfoo_eval_harness.Resolve.Entries.Distinct.{
  case_id_of-build, scenario_ids, provider_ids, provider_ids-step, tier_ids, tier_ids-step,
}

abbrev pub IsTier : List (Str × Value) → Str → Value → Type 0
IsTier [] name tier = ⊥
IsTier ((k, t) ∷ tiers) name tier = ((name ≡ k) × (tier ≡ t)) ⊎ IsTier tiers name tier

-- All tiers where no name is asked for, and otherwise the one of that name.
abbrev pub IsSelected : List (Str × Value) → Str → Str → Value → Type 0
IsSelected tiers asked name tier =
    ((is_empty asked ≡ true) × IsTier tiers name tier)
    ⊎ ((is_empty asked ≡ false) × (name ≡ asked) × (tier ≡ lookup asked tiers))

-- The id of a case: of a tier that is there, the place of one of its providers, and the place of a
-- scenario.
abbrev pub IsCase : (Str → Value → Type 0) → Str → List Value → Str → Type 0
IsCase IsThere run_id scenarios id =
    (name : Str) × (tier : Value) × (p : ℕ) × (s : ℕ) × IsThere name tier
    × (p < length (elements (get (lit "providers") tier)))
    × (s < length scenarios)
    × (id ≡ build_case_id name p s run_id)

abbrev pub ListsCases : (Str → Value → Type 0) → Str → List Value → List Str → Type 0
ListsCases IsThere run_id scenarios ids =
    (id : Str) → (includes ids id ≡ true) ↔ IsCase IsThere run_id scenarios id

append_iff :
    (xs ys : List Str) (x : Str) (P Q : Type 0)
    → (includes xs x ≡ true) ↔ P
    → (includes ys x ≡ true) ↔ Q
    → (includes (xs ++ ys) x ≡ true) ↔ (P ⊎ Q)
append_iff xs ys x P Q (to, from) (to', from') = (
  λ h. elim (Bool-cases (includes xs x)) [
    | inl here ↦ inl (to here)
    | inr there ↦ inr (to' (ground (arith, includes-append xs ys x)))
  ],
  λ found. includes-append xs ys x ∙ elim found [
    | inl p ↦ let here = from p in ground arith
    | inr q ↦ let there = from' q in ground arith
  ],
)

module _ (roots : Roots) (to_text : Value → Str) (run_id : Str)
    (defaults : List (Str × Value)) where
  scenario_ids_iff :
      (name : Str) (entry : Value) (p s : ℕ) (scenarios : List Value) (id : Str)
      → (includes (scenario_ids roots to_text run_id defaults name entry p s scenarios) id ≡ true)
        ↔ ((k : ℕ) × (s ≤ k) × (k < s + length scenarios) × (id ≡ build_case_id name p k run_id))
  unfolding each_scenario includes
  scenario_ids_iff name entry p s [] id =
      (λ h. cc, λ (k, low, high, e). let no : ⊥ = omega (arith, low, high) in elim no [ ])
  scenario_ids_iff name entry p s (scenario ∷ scenarios) id =
      let (to, from) = scenario_ids_iff name entry p (suc s) scenarios id in
      let made = case_id_of-build roots to_text name run_id entry p s defaults in
      (
        λ h. elim (Bool-cases (str_eq (build_case_id name p s run_id) id)) [
          | inl here ↦ (s, omega arith, omega arith, sym ((str_eq_iff _ id).0 here))
          | inr later ↦
              let (k, low, high, e) = to (rw (made, later) at h) in
              (k, omega (arith, low), omega (arith, high), e)
        ],
        λ (k, low, high, e). elim (Bool-cases (str_eq (build_case_id name p s run_id) id)) [
          | inl here ↦ rw (made, here) refl
          | inr later ↦
              let differs : s ≢ k = λ same.
                let t =
                  (str_eq_iff (build_case_id name p s run_id) id).1
                    (ap (λ n. build_case_id name p n run_id) same ∙ sym e) in
                cc in
              rw (made, later) (from (k, omega (arith, low, differs), omega (arith, high), e))
        ],
      )

  provider_ids_iff :
      (name : Str) (p : ℕ) (rest scenarios : List Value) (id : Str)
      → (includes (provider_ids roots to_text run_id defaults name p rest scenarios) id ≡ true) ↔ (
          (q : ℕ) × (k : ℕ) × (p ≤ q)
          × (q < p + length rest)
          × (k < length scenarios)
          × (id ≡ build_case_id name q k run_id))
  unfolding each_provider includes
  provider_ids_iff name p [] scenarios id =
      (λ h. cc, λ (q, k, low, high, s, e). let no : ⊥ = omega (arith, low, high) in elim no [ ])
  provider_ids_iff name p (entry ∷ rest) scenarios id =
      let (to, from) =
        append_iff (scenario_ids roots to_text run_id defaults name entry p 0 scenarios)
          (provider_ids roots to_text run_id defaults name (suc p) rest scenarios) id _ _
          (scenario_ids_iff name entry p 0 scenarios id)
          (provider_ids_iff name (suc p) rest scenarios id) in
      rw (provider_ids-step roots to_text run_id defaults name p entry rest scenarios) (
        λ h. elim (to h) [
          | inl (k, low, high, e) ↦ (p, k, omega arith, omega arith, omega (arith, high), e)
          | inr (q, k, low, high, s, e) ↦ (q, k, omega (arith, low), omega (arith, high), s, e)
        ],
        λ (q, k, low, high, s, e). elim (Bool-cases (q == p)) [
          | inl here ↦
              let same : q ≡ p = ground arith in
              from (
                inl (
                  k,
                  omega arith,
                  omega (arith, s),
                  e ∙ ap (λ n. build_case_id name n k run_id) same,
                ))
          | inr later ↦
              let differs : q ≢ p = ground arith in
              from (inr (q, k, omega (arith, low, differs), omega (arith, high), s, e))
        ],
      )

  pub tier_ids_iff :
      (tiers : List (Str × Value)) (scenarios : List Value) (id : Str)
      → (includes (tier_ids roots to_text run_id defaults tiers scenarios) id ≡ true)
        ↔ IsCase (IsTier tiers) run_id scenarios id
  unfolding each_tier includes
  tier_ids_iff [] scenarios id =
      (λ h. cc, λ (name, tier, p, s, there, high, few, e). elim there [ ])
  tier_ids_iff ((k, t) ∷ tiers) scenarios id =
      let ps = elements (get (lit "providers") t) in
      let (to, from) =
        append_iff (provider_ids roots to_text run_id defaults k 0 ps scenarios)
          (tier_ids roots to_text run_id defaults tiers scenarios) id _ _
          (provider_ids_iff k 0 ps scenarios id) (tier_ids_iff tiers scenarios id) in
      rw (tier_ids-step roots to_text run_id defaults k t tiers scenarios) (
        λ h. elim (to h) [
          | inl (q, s, low, high, few, e) ↦
              (k, t, q, s, inl (refl, refl), omega (arith, high), few, e)
          | inr (name, tier, q, s, there, high, few, e) ↦
              (name, tier, q, s, inr there, high, few, e)
        ],
        λ (name, tier, q, s, there, high, few, e). elim there [
          | inl (n, u) ↦
              let within : q < length ps =
                subst (λ v. q < length (elements (get (lit "providers") v))) u high in
              from (
                inl (
                  q,
                  s,
                  omega arith,
                  omega (arith, within),
                  few,
                  e ∙ ap (λ m. build_case_id m q s run_id) n,
                ))
          | inr later ↦ from (inr (name, tier, q, s, later, high, few, e))
        ],
      )
