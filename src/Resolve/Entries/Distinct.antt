-- ===== src/Resolve/Entries/Distinct.antt =====
-- The case ids of a run, taken together.
use promptfoo_eval_harness.Prelude.{
  ℕ, suc, ◌≤◌, ◌≡◌, ap, ◌∙◌, subst, ◌≢◌, List, [], ◌∷◌, ◌++◌, map, map-append, arith, Str, lit,
  str_eq, is_empty, All, All-append, Bool-cases, inl, inr, Option, Result, ok, err, err-ne-ok,
  ok-injective,
}
use promptfoo_eval_harness.Js.{Value, get, entries, text, elements, truthy, lookup, omit}
use promptfoo_eval_harness.Js.Laws.{fields-to_fields}
use promptfoo_eval_harness.TierConfig.Shape.{parse_tier_config}
use promptfoo_eval_harness.TierConfig.RuntimeFields.{keys}
use promptfoo_eval_harness.Resolve.{Roots}
use promptfoo_eval_harness.Resolve.Entries.{
  Error, unknown_tier, own, build_case_id, build_bridge_provider_entry, each_scenario,
  each_provider, each_tier, entry_config, emit_providers, resolve_multi_provider_config, get_run_id,
}
use promptfoo_eval_harness.Resolve.Entries.Identity.{build_case_id_injective, entry_config-owned}

-- No two elements are equal.
abbrev pub Distinct : List Str → Type 0
Distinct [] = Unit
Distinct (x ∷ xs) = All (λ y. x ≢ y) xs × Distinct xs

Distinct-append :
    (xs ys : List Str)
    → Distinct xs
    → Distinct ys
    → All (λ x. All (λ y. x ≢ y) ys) xs
    → Distinct (xs ++ ys)
Distinct-append [] ys h k c = k
Distinct-append (x ∷ xs) ys (h, hs) k (c, cs) =
    (All-append (λ y. x ≢ y) xs ys h c, Distinct-append xs ys hs k cs)

-- The id of the case that a provider is for.
unfoldable pub case_id_of : Value → Str
case_id_of provider = text (get (lit "case_id") (get (lit "config") provider))

module _ (roots : Roots) (to_text : Value → Str) where
  pub case_id_of-build :
      (name run_id : Str) (entry : Value) (p s : ℕ) (defaults : List (Str × Value))
      → case_id_of (build_bridge_provider_entry roots to_text name entry p s run_id defaults)
        ≡ build_case_id name p s run_id
  unfolding case_id_of build_bridge_provider_entry get lookup str_eq lit
  case_id_of-build name run_id entry p s defaults =
      let case_id = build_case_id name p s run_id in
      ap text (
        ap (lookup (lit "case_id")) (fields-to_fields (entry_config entry run_id case_id defaults))
        ∙ (entry_config-owned entry run_id case_id defaults).0)

  module _ (run_id : Str) (defaults : List (Str × Value)) where
    -- The case ids of the providers that a loop emits.
    abbrev pub scenario_ids : Str → Value → ℕ → ℕ → List Value → List Str
    scenario_ids name entry p s scenarios =
        map case_id_of (each_scenario roots to_text run_id defaults name entry p s scenarios)

    abbrev pub provider_ids : Str → ℕ → List Value → List Value → List Str
    provider_ids name p rest scenarios =
        map case_id_of (each_provider roots to_text run_id defaults name p rest scenarios)

    abbrev pub tier_ids : List (Str × Value) → List Value → List Str
    tier_ids tiers scenarios =
        map case_id_of (each_tier roots to_text run_id defaults tiers scenarios)

    pub provider_ids-step :
        (name : Str) (p : ℕ) (entry : Value) (rest scenarios : List Value)
        → provider_ids name p (entry ∷ rest) scenarios
          ≡ scenario_ids name entry p 0 scenarios ++ provider_ids name (suc p) rest scenarios
    unfolding each_provider
    provider_ids-step name p entry rest scenarios =
        map-append case_id_of (each_scenario roots to_text run_id defaults name entry p 0 scenarios)
          (each_provider roots to_text run_id defaults name (suc p) rest scenarios)

    pub tier_ids-step :
        (name : Str) (tier : Value) (tiers : List (Str × Value)) (scenarios : List Value)
        → tier_ids ((name, tier) ∷ tiers) scenarios
          ≡ provider_ids name 0 (elements (get (lit "providers") tier)) scenarios
            ++ tier_ids tiers scenarios
    unfolding each_tier
    tier_ids-step name tier tiers scenarios =
        map-append case_id_of
          (each_provider roots to_text run_id defaults name 0
            (elements (get (lit "providers") tier)) scenarios)
          (each_tier roots to_text run_id defaults tiers scenarios)

    -- An id that no pass of a loop can make is none of those that it makes.
    scenario_ids-avoid :
        (name : Str) (entry : Value) (p s : ℕ) (scenarios : List Value) (n : Str) (q r : ℕ)
        → (n ≡ name → q ≡ p → s ≤ r → ⊥)
        → All (λ y. build_case_id n q r run_id ≢ y) (scenario_ids name entry p s scenarios)
    unfolding each_scenario
    scenario_ids-avoid name entry p s [] n q r h = tt
    scenario_ids-avoid name entry p s (scenario ∷ scenarios) n q r h = (
      λ e.
          let (a, b, c) =
            build_case_id_injective n name q p r s run_id
              (e ∙ case_id_of-build name run_id entry p s defaults) in
          h a b (omega (arith, c)),
      scenario_ids-avoid name entry p (suc s) scenarios n q r (λ a b c. h a b (omega (arith, c))),
    )

    provider_ids-avoid :
        (name : Str) (p : ℕ) (rest scenarios : List Value) (n : Str) (q r : ℕ)
        → (n ≡ name → p ≤ q → ⊥)
        → All (λ y. build_case_id n q r run_id ≢ y) (provider_ids name p rest scenarios)
    unfolding each_provider
    provider_ids-avoid name p [] scenarios n q r h = tt
    provider_ids-avoid name p (entry ∷ rest) scenarios n q r h =
        rw (provider_ids-step name p entry rest scenarios) (
          All-append (λ y. build_case_id n q r run_id ≢ y) (scenario_ids name entry p 0 scenarios)
            (provider_ids name (suc p) rest scenarios)
            (scenario_ids-avoid name entry p 0 scenarios n q r (λ a b c. h a (omega (arith, b))))
            (provider_ids-avoid name (suc p) rest scenarios n q r (λ a b. h a (omega (arith, b)))))

    tier_ids-avoid :
        (tiers : List (Str × Value)) (scenarios : List Value) (n : Str) (q r : ℕ)
        → All (λ y. n ≢ y) (keys tiers)
        → All (λ y. build_case_id n q r run_id ≢ y) (tier_ids tiers scenarios)
    unfolding each_tier
    tier_ids-avoid [] scenarios n q r h = tt
    tier_ids-avoid ((name, tier) ∷ tiers) scenarios n q r (h, hs) =
        let entries = elements (get (lit "providers") tier) in
        rw (tier_ids-step name tier tiers scenarios) (
          All-append (λ y. build_case_id n q r run_id ≢ y) (provider_ids name 0 entries scenarios)
            (tier_ids tiers scenarios)
            (provider_ids-avoid name 0 entries scenarios n q r (λ a b. h a))
            (tier_ids-avoid tiers scenarios n q r hs))

    -- What no pass of a loop can make differs from all that the loop makes.
    scenario_ids-cross :
        (name : Str) (entry : Value) (p s : ℕ) (scenarios : List Value) (ys : List Str)
        → ((r : ℕ) → All (λ y. build_case_id name p r run_id ≢ y) ys)
        → All (λ x. All (λ y. x ≢ y) ys) (scenario_ids name entry p s scenarios)
    unfolding each_scenario
    scenario_ids-cross name entry p s [] ys h = tt
    scenario_ids-cross name entry p s (scenario ∷ scenarios) ys h = (
      rw (case_id_of-build name run_id entry p s defaults) (h s),
      scenario_ids-cross name entry p (suc s) scenarios ys h,
    )

    provider_ids-cross :
        (name : Str) (p : ℕ) (rest scenarios : List Value) (ys : List Str)
        → ((q r : ℕ) → All (λ y. build_case_id name q r run_id ≢ y) ys)
        → All (λ x. All (λ y. x ≢ y) ys) (provider_ids name p rest scenarios)
    unfolding each_provider
    provider_ids-cross name p [] scenarios ys h = tt
    provider_ids-cross name p (entry ∷ rest) scenarios ys h =
        rw (provider_ids-step name p entry rest scenarios) (
          All-append (λ x. All (λ y. x ≢ y) ys) (scenario_ids name entry p 0 scenarios)
            (provider_ids name (suc p) rest scenarios)
            (scenario_ids-cross name entry p 0 scenarios ys (h p))
            (provider_ids-cross name (suc p) rest scenarios ys h))

    scenario_ids-Distinct :
        (name : Str) (entry : Value) (p s : ℕ) (scenarios : List Value)
        → Distinct (scenario_ids name entry p s scenarios)
    unfolding each_scenario
    scenario_ids-Distinct name entry p s [] = tt
    scenario_ids-Distinct name entry p s (scenario ∷ scenarios) = (
      rw (case_id_of-build name run_id entry p s defaults)
          (scenario_ids-avoid name entry p (suc s) scenarios name p s (λ a b c. omega (arith, c))),
      scenario_ids-Distinct name entry p (suc s) scenarios,
    )

    provider_ids-Distinct :
        (name : Str) (p : ℕ) (rest scenarios : List Value)
        → Distinct (provider_ids name p rest scenarios)
    unfolding each_provider
    provider_ids-Distinct name p [] scenarios = tt
    provider_ids-Distinct name p (entry ∷ rest) scenarios =
        rw (provider_ids-step name p entry rest scenarios) (
          Distinct-append (scenario_ids name entry p 0 scenarios)
            (provider_ids name (suc p) rest scenarios)
            (scenario_ids-Distinct name entry p 0 scenarios)
            (provider_ids-Distinct name (suc p) rest scenarios)
            (scenario_ids-cross name entry p 0 scenarios _ (λ r.
              provider_ids-avoid name (suc p) rest scenarios name p r (λ a b. omega (arith, b)))))

    tier_ids-Distinct :
        (tiers : List (Str × Value)) (scenarios : List Value)
        → Distinct (keys tiers)
        → Distinct (tier_ids tiers scenarios)
    unfolding each_tier
    tier_ids-Distinct [] scenarios h = tt
    tier_ids-Distinct ((name, tier) ∷ tiers) scenarios (h, hs) =
        let rest = elements (get (lit "providers") tier) in
        rw (tier_ids-step name tier tiers scenarios) (
          Distinct-append (provider_ids name 0 rest scenarios) (tier_ids tiers scenarios)
            (provider_ids-Distinct name 0 rest scenarios) (tier_ids-Distinct tiers scenarios hs)
            (provider_ids-cross name 0 rest scenarios _
              (λ q r. tier_ids-avoid tiers scenarios name q r h)))

  emit_providers-Distinct :
      (normalized : Value) (scenarios providers : List Value) (tier_name run_id : Str)
      → Distinct (keys (entries (get (lit "tiers") normalized)))
      → emit_providers roots to_text normalized scenarios tier_name run_id ≡ ok providers
      → Distinct (map case_id_of providers)
  unfolding emit_providers
  emit_providers-Distinct normalized scenarios providers tier_name run_id h e =
      let tiers = entries (get (lit "tiers") normalized) in
      let defaults = omit (lit "provider_id") (own (get (lit "runtime") normalized)) in
      elim (Bool-cases (is_empty tier_name)) [
        | inl none_given ↦
            let same : ◌≡◌ {A = Result Error (List Value)}
                (ok (each_tier roots to_text run_id defaults tiers scenarios)) (ok providers) =
              rw none_given at e in
            subst (λ ps. Distinct (map case_id_of ps)) (ok-injective same)
              (tier_ids-Distinct run_id defaults tiers scenarios h)
        | inr given ↦ elim (Bool-cases (truthy (lookup tier_name tiers))) [
          | inl known ↦
              let one = (tier_name, lookup tier_name tiers) ∷ [] in
              let same : ◌≡◌ {A = Result Error (List Value)}
                  (ok (each_tier roots to_text run_id defaults one scenarios)) (ok providers) =
                rw (given, known) at e in
              subst (λ ps. Distinct (map case_id_of ps)) (ok-injective same)
                (tier_ids-Distinct run_id defaults one scenarios (tt, tt))
          | inr unknown ↦
              let same : ◌≡◌ {A = Result Error (List Value)} (err (unknown_tier tier_name))
                  (ok providers) =
                rw (given, unknown) at e in
              elim (err-ne-ok same) [ ]
        ]
      ]

  -- Where the tiers of a configuration have different names, the providers that are emitted for it
  -- have case ids of which no two are equal: one for each tier, provider and scenario.
  pub resolve_multi_provider_config-Distinct :
      (tier_config normalized : Value) (scenarios providers : List Value)
      (tier_name given fresh : Str) (cache : Option Str)
      → parse_tier_config tier_config ≡ ok normalized
      → Distinct (keys (entries (get (lit "tiers") normalized)))
      → (resolve_multi_provider_config roots to_text tier_config scenarios tier_name given cache
          fresh).0
        ≡ ok providers
      → Distinct (map case_id_of providers)
  unfolding resolve_multi_provider_config
  resolve_multi_provider_config-Distinct config normalized scenarios providers name given fresh
        cache p h e =
      let f = rw (resolve_multi_provider_config, p) at e in
      elim (Bool-cases (is_empty given)) [
        | inl none_given ↦
            emit_providers-Distinct normalized scenarios providers name (get_run_id cache fresh) h
              (rw none_given at f)
        | inr some_given ↦
            emit_providers-Distinct normalized scenarios providers name given h (rw some_given at f)
      ]
