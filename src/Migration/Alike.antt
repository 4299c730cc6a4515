-- ===== src/Migration/Alike.antt =====
-- The tiers of a configuration of the old version, beside those of the one it is migrated to.
use mathlib.Core.Path.{ap₂}
use promptfoo_eval_harness.Prelude.{
  ℕ, suc, ◌≡◌, refl, ap, sym, ◌∙◌, subst, true, false, List, [], ◌∷◌, ◌++◌, arith, Str, lit, str_eq,
  is_blank, Bool-cases, inl, inr, ok, >>=-returned, ok-injective, err-ne-ok,
}
use promptfoo_eval_harness.Js.{
  Value, null, str, obj, arr, object, array, get, lookup, put, omit, spread, entries, or_else,
  truthy, is_object, is_plain, is_string, text, elements,
}
use promptfoo_eval_harness.Js.Laws.{fields-to_fields}
use promptfoo_eval_harness.TierConfig.Shape.{
  parse_tier_config, is_v1_shape, is_v0_shape, normalize_tiers, normalize_v0_to_v1, normal_tier,
  agent_config_of, missing_agent,
}
use promptfoo_eval_harness.TierConfig.Shape
use promptfoo_eval_harness.Resolve.{Roots}
use promptfoo_eval_harness.Resolve.Entries.{
  own, entry_config, build_bridge_provider_entry, each_scenario, each_provider, each_tier,
}
use promptfoo_eval_harness.Migration.{migrated_provider, build_tiers, build_v1}
use promptfoo_eval_harness.Migration

abbrev pub normal_provider : Value → Value → Value
normal_provider agent runtime = object (
    (lit "provider_kind", str (lit "opencode_cli"))
    ∷ (lit "label", agent)
    ∷ (lit "model", null)
    ∷ (lit "agent_config", agent_config_of runtime)
    ∷ [])

abbrev pub migrated_tier : Value → Value → Value
migrated_tier agent runtime =
    object ((lit "providers", array (migrated_provider agent runtime ∷ [])) ∷ [])

-- Two lists of tiers with the same names and agents, the first normalised and the second migrated.
abbrev pub Alike : Value → List (Str × Value) → List (Str × Value) → Type 0
Alike runtime [] [] = Unit
Alike runtime ((k, t) ∷ ts) ((j, u) ∷ us) =
    (k ≡ j)
    × ((agent : Value) × (t ≡ normal_tier agent runtime) × (u ≡ migrated_tier agent runtime))
    × Alike runtime ts us
Alike runtime _ _ = ⊥

put-Alike :
    (runtime agent : Value) (name : Str) (ts us : List (Str × Value))
    → Alike runtime ts us
    → Alike runtime
        (put name (normal_tier agent runtime) ts)
        (put name (migrated_tier agent runtime) us)
unfolding put
put-Alike runtime agent name [] [] h = (refl, (agent, refl, refl), tt)
put-Alike runtime agent name ((k, t) ∷ ts) ((j, u) ∷ us) (same, a, rest) =
    elim (Bool-cases (str_eq k name)) [
      | inl e ↦ rw (e, subst (λ i. str_eq i name ≡ true) same e) (same, (agent, refl, refl), rest)
      | inr e ↦
          rw (e, subst (λ i. str_eq i name ≡ false) same e)
            (same, a, put-Alike runtime agent name ts us rest)
    ]
put-Alike runtime agent name [] (u ∷ us) h = elim h [ ]
put-Alike runtime agent name (t ∷ ts) [] h = elim h [ ]

module _ (roots : Roots) (to_text : Value → Str) where
  build_entry_same :
      (name run_id : Str) (agent runtime : Value) (p s : ℕ) (defaults : List (Str × Value))
      → build_bridge_provider_entry roots to_text name
          (normal_provider agent runtime)
          p
          s
          run_id
          defaults
        ≡ build_bridge_provider_entry roots to_text name
            (migrated_provider agent runtime)
            p
            s
            run_id
            defaults
  unfolding build_bridge_provider_entry entry_config get lookup omit spread put truthy is_string
      str_eq lit entries
  build_entry_same name run_id agent runtime p s defaults =
      elim (Bool-cases (truthy (get (lit "opencode_config") runtime))) [
        | inl e ↦ rw e refl
        | inr e ↦ rw e refl
      ]

  module _ (run_id : Str) (defaults : List (Str × Value)) where
    each_scenario_same :
        (name : Str) (agent runtime : Value) (p s : ℕ) (scenarios : List Value)
        → each_scenario roots to_text run_id defaults name
            (normal_provider agent runtime)
            p
            s
            scenarios
          ≡ each_scenario roots to_text run_id defaults name
              (migrated_provider agent runtime)
              p
              s
              scenarios
    unfolding each_scenario
    each_scenario_same name agent runtime p s [] = refl
    each_scenario_same name agent runtime p s (scenario ∷ scenarios) =
        ap₂ ◌∷◌ (build_entry_same name run_id agent runtime p s defaults)
          (each_scenario_same name agent runtime p (suc s) scenarios)

    each_provider_same :
        (name : Str) (agent runtime : Value) (scenarios : List Value)
        → each_provider roots to_text run_id defaults name 0
            (elements (get (lit "providers") (normal_tier agent runtime)))
            scenarios
          ≡ each_provider roots to_text run_id defaults name 0
              (elements (get (lit "providers") (migrated_tier agent runtime)))
              scenarios
    unfolding each_provider get lookup str_eq lit
    each_provider_same name agent runtime scenarios =
        ap (λ ps. ps ++ []) (each_scenario_same name agent runtime 0 0 scenarios)

    pub each_tier_same :
        (runtime : Value) (ts us : List (Str × Value)) (scenarios : List Value)
        → Alike runtime ts us
        → each_tier roots to_text run_id defaults ts scenarios
          ≡ each_tier roots to_text run_id defaults us scenarios
    unfolding each_tier
    each_tier_same runtime [] [] scenarios h = refl
    each_tier_same runtime ((k, t) ∷ ts) ((j, u) ∷ us) scenarios (same, (agent, e, f), rest) =
        rw (same, e, f)
          (ap₂ ◌++◌ (each_provider_same j agent runtime scenarios)
            (each_tier_same runtime ts us scenarios rest))
    each_tier_same runtime [] (u ∷ us) scenarios h = elim h [ ]
    each_tier_same runtime (t ∷ ts) [] scenarios h = elim h [ ]

pub tiers-Alike :
    (runtime : Value) (done made tiers normal migrated : List (Str × Value))
    → Alike runtime done made
    → normalize_tiers runtime done tiers ≡ ok normal
    → build_tiers runtime made tiers ≡ ok migrated
    → Alike runtime normal migrated
unfolding normalize_tiers build_tiers
tiers-Alike runtime done made [] normal migrated h n m =
    subst (Alike runtime normal) (ok-injective m)
      (subst (λ ts. Alike runtime ts made) (ok-injective n) h)
tiers-Alike runtime done made ((name, tier) ∷ tiers) normal migrated h n m =
    let agent = get (lit "agent") tier in
    elim (Bool-cases (is_string agent)) [
      | inl given ↦ elim (Bool-cases (is_blank (text agent))) [
        | inl blank ↦
            elim (err-ne-ok {e = missing_agent name} {a = normal} (rw (given, blank) at n)) [ ]
        | inr full ↦
            tiers-Alike runtime (put name (normal_tier (get (lit "agent") tier) runtime) done)
              (put name (migrated_tier (get (lit "agent") tier) runtime) made) tiers normal migrated
              (put-Alike runtime agent name done made h) (rw (given, full) at n) (rw given at m)
      ]
      | inr absent ↦
          elim (err-ne-ok {e = Migration.missing_agent name} {a = migrated} (rw absent at m)) [ ]
    ]

pub own-object : (v : Value) → is_object v ≡ true → own (or_else v (object [])) ≡ entries v
unfolding is_object truthy
own-object (obj fs) h = refl
own-object (arr vs) h = refl
own-object v h = ground arith

is_v0_shape-tiers :
    (raw : Value) → is_v0_shape raw ≡ true → is_object (get (lit "tiers") raw) ≡ true
unfolding is_v0_shape
is_v0_shape-tiers raw h = ground arith

pub old-normalized :
    (raw normalized : Value)
    → is_v1_shape raw ≡ false
    → parse_tier_config raw ≡ ok normalized
    → (is_object (get (lit "tiers") raw) ≡ true) × (normalize_v0_to_v1 raw ≡ ok normalized)
unfolding parse_tier_config
old-normalized raw normalized old p = elim (Bool-cases (is_plain raw)) [
  | inl plain ↦ elim (Bool-cases (is_v0_shape raw)) [
    | inl known ↦ (is_v0_shape-tiers raw known, rw (plain, old, known) at p)
    | inr unknown ↦
        elim (err-ne-ok {e = Shape.unknown_version} {a = normalized}
          (rw (plain, old, unknown) at p)) [ ]
  ]
  | inr other ↦ elim (err-ne-ok {e = Shape.not_plain} {a = normalized} (rw other at p)) [ ]
]

pub normalized-tiers :
    (raw normalized : Value)
    → normalize_v0_to_v1 raw ≡ ok normalized
    → (ts : List (Str × Value)) × (normalize_tiers
          (get (lit "runtime") raw)
          []
          (entries (get (lit "tiers") raw))
        ≡ ok ts)
      × (entries (get (lit "tiers") normalized) ≡ ts)
unfolding normalize_v0_to_v1 get lookup entries str_eq lit
normalized-tiers raw normalized h =
    let (ts, e, same) =
      >>=-returned (normalize_tiers (get (lit "runtime") raw) [] (entries (get (lit "tiers") raw)))
        _ h in
    (ts, e, ap (λ v. entries (get (lit "tiers") v)) (sym (ok-injective same)) ∙ fields-to_fields ts)

pub migrated-tiers :
    (raw v : Value)
    → build_v1 raw ≡ ok v
    → (us : List (Str × Value)) × (build_tiers
          (get (lit "runtime") raw)
          []
          (own (or_else (get (lit "tiers") raw) (object [])))
        ≡ ok us)
      × (entries (get (lit "tiers") v) ≡ us)
unfolding build_v1 get lookup entries str_eq lit
migrated-tiers raw v h =
    let (us, e, same) =
      >>=-returned
        (build_tiers (get (lit "runtime") raw) []
          (own (or_else (get (lit "tiers") raw) (object []))))
        _ h in
    (us, e, ap (λ w. entries (get (lit "tiers") w)) (sym (ok-injective same)) ∙ fields-to_fields us)
