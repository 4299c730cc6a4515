-- ===== src/Migration/Emitted.antt =====
-- The providers of a configuration before and after its migration.
use promptfoo_eval_harness.Prelude.{
  ◌≡◌, refl, ap, sym, ◌∙◌, subst, true, false, ◌⊎◌, inl, inr, List, [], ◌∷◌, Str, lit, str_eq,
  is_empty, Bool-cases, if◌then◌else◌, Option, Result, ok, err, >>=-returned, ok-injective,
}
use promptfoo_eval_harness.Js.{
  Value, obj, arr, str, num, bool, null, undefined, object, get, lookup, omit, entries, or_else,
  truthy, is_object,
}
use promptfoo_eval_harness.TierConfig.Shape.{
  parse_tier_config, is_v1_shape, normalize_v0_to_v1, normalize_tiers, normal_tier,
}
use promptfoo_eval_harness.Resolve.{Roots}
use promptfoo_eval_harness.Resolve.Entries.{
  Error, unknown_tier, own, each_tier, emit_providers, resolve_multi_provider_config,
}
use promptfoo_eval_harness.Resolve.Entries.Cases.{id_of_run}
use promptfoo_eval_harness.Migration.{build_tiers, build_v1}
use promptfoo_eval_harness.Migration.Accepted.{build_v1-accepted}
use promptfoo_eval_harness.Migration.Alike.{
  Alike, migrated_tier, each_tier_same, tiers-Alike, own-object, old-normalized, normalized-tiers,
  migrated-tiers,
}

lookup-Alike :
    (runtime : Value) (key : Str) (ts us : List (Str × Value))
    → Alike runtime ts us
    → ((lookup key ts ≡ undefined) × (lookup key us ≡ undefined))
      ⊎ ((agent : Value) × (lookup key ts ≡ normal_tier agent runtime)
          × (lookup key us ≡ migrated_tier agent runtime))
unfolding lookup
lookup-Alike runtime key [] [] h = inl (refl, refl)
lookup-Alike runtime key ((k, t) ∷ ts) ((j, u) ∷ us) (same, (agent, e, f), rest) =
    elim (Bool-cases (str_eq k key)) [
      | inl here ↦ rw (here, subst (λ i. str_eq i key ≡ true) same here) (inr (agent, e, f))
      | inr later ↦
          rw (later, subst (λ i. str_eq i key ≡ false) same later)
            (lookup-Alike runtime key ts us rest)
    ]
lookup-Alike runtime key [] (u ∷ us) h = elim h [ ]
lookup-Alike runtime key (t ∷ ts) [] h = elim h [ ]

own-falsy : (v : Value) → truthy v ≡ false → own v ≡ []
unfolding truthy entries
own-falsy undefined h = refl
own-falsy null h = refl
own-falsy (bool b) h = refl
own-falsy (num n) h = refl
own-falsy (str []) h = refl
own-falsy (str (c ∷ s)) h = cc
own-falsy (arr vs) h = cc
own-falsy (obj fs) h = cc

module _ (roots : Roots) (to_text : Value → Str) where
  -- The providers of some tiers, or of the one that is asked for, with the defaults given below the
  -- configuration of each.
  abbrev pub providers_with :
      List (Str × Value) → List (Str × Value) → List Value → Str → Str → Result Error (List Value)
  providers_with defaults tiers scenarios asked run_id =
      if is_empty asked
      then ok (each_tier roots to_text run_id defaults tiers scenarios)
      else if truthy (lookup asked tiers)
      then ok (each_tier roots to_text run_id defaults ((asked, lookup asked tiers) ∷ []) scenarios)
      else err (unknown_tier asked)

  emit_providers-with :
      (v : Value) (scenarios : List Value) (asked run_id : Str)
      → emit_providers roots to_text v scenarios asked run_id
        ≡ providers_with
            (omit (lit "provider_id") (own (get (lit "runtime") v)))
            (entries (get (lit "tiers") v))
            scenarios
            asked
            run_id
  unfolding emit_providers
  emit_providers-with v scenarios asked run_id = refl

  providers_with_same :
      (defaults : List (Str × Value)) (runtime : Value) (ts us : List (Str × Value))
      (scenarios : List Value) (asked run_id : Str)
      → Alike runtime ts us
      → providers_with defaults ts scenarios asked run_id
        ≡ providers_with defaults us scenarios asked run_id
  unfolding truthy
  providers_with_same defaults runtime ts us scenarios asked run_id h =
      let all = each_tier_same roots to_text run_id defaults runtime ts us scenarios h in
      elim (Bool-cases (is_empty asked)) [
        | inl none_asked ↦ rw none_asked (ap ok all)
        | inr one_asked ↦ elim (lookup-Alike runtime asked ts us h) [
          | inl (e, f) ↦ rw (one_asked, e, f) refl
          | inr (agent, e, f) ↦
              rw (one_asked, e, f)
                (ap ok (
                  each_tier_same roots to_text run_id defaults runtime
                    ((asked, normal_tier agent runtime) ∷ [])
                    ((asked, migrated_tier agent runtime) ∷ []) scenarios
                    (refl, (agent, refl, refl), tt)))
        ]
      ]

normalized-defaults :
    (raw normalized : Value)
    → normalize_v0_to_v1 raw ≡ ok normalized
    → own (get (lit "runtime") normalized) ≡ own (get (lit "runtime") raw)
unfolding normalize_v0_to_v1 get lookup entries str_eq lit
normalized-defaults raw normalized h =
    let (ts, e, same) =
      >>=-returned (normalize_tiers (get (lit "runtime") raw) [] (entries (get (lit "tiers") raw)))
        _ h in
    subst (λ v. own (get (lit "runtime") v) ≡ own (get (lit "runtime") raw)) (ok-injective same)
      (elim (Bool-cases (truthy (get (lit "runtime") raw))) [
        | inl given ↦ rw given refl
        | inr none_given ↦ rw none_given (sym (own-falsy (get (lit "runtime") raw) none_given))
      ])

migrated-defaults : (raw v : Value) → build_v1 raw ≡ ok v → own (get (lit "runtime") v) ≡ []
unfolding build_v1 get lookup entries str_eq lit
migrated-defaults raw v h =
    let (us, e, same) =
      >>=-returned
        (build_tiers (get (lit "runtime") raw) []
          (own (or_else (get (lit "tiers") raw) (object []))))
        _ h in
    subst (λ w. own (get (lit "runtime") w) ≡ []) (ok-injective same)
      (elim (Bool-cases (is_object (get (lit "concurrency") raw))) [
        | inl given ↦ rw given refl
        | inr none_given ↦ rw none_given refl
      ])

old-Alike :
    (raw normalized v : Value)
    → is_v1_shape raw ≡ false
    → parse_tier_config raw ≡ ok normalized
    → build_v1 raw ≡ ok v
    → Alike
        (get (lit "runtime") raw)
        (entries (get (lit "tiers") normalized))
        (entries (get (lit "tiers") v))
old-Alike raw normalized v old p m =
    let runtime = get (lit "runtime") raw in
    let (is_obj, normal) = old-normalized raw normalized old p in
    let (ts, e, at_normal) = normalized-tiers raw normalized normal in
    let (us, f, at_migrated) = migrated-tiers raw v m in
    let g : build_tiers runtime [] (entries (get (lit "tiers") raw)) ≡ ok us =
      ap (build_tiers runtime []) (sym (own-object (get (lit "tiers") raw) is_obj)) ∙ f in
    rw (at_normal, at_migrated)
      (tiers-Alike runtime [] [] (entries (get (lit "tiers") raw)) ts us tt e g)

module _ (roots : Roots) (to_text : Value → Str) where
  resolve_accepted :
      (config normalized : Value) (scenarios : List Value) (asked given fresh : Str)
      (cache : Option Str)
      → parse_tier_config config ≡ ok normalized
      → (resolve_multi_provider_config roots to_text config scenarios asked given cache fresh).0
        ≡ emit_providers roots to_text normalized scenarios asked (id_of_run given cache fresh)
  unfolding resolve_multi_provider_config
  resolve_accepted config normalized scenarios asked given fresh cache p =
      elim (Bool-cases (is_empty given)) [
        | inl none_given ↦ rw (p, resolve_multi_provider_config) (rw none_given refl)
        | inr some_given ↦ rw (p, resolve_multi_provider_config) (rw some_given refl)
      ]

  -- What migrating a configuration of the old version, one that is read and can be migrated, does
  -- to the providers that are emitted for it: they are those of the migrated tiers before and
  -- after, for all tiers or for one that is asked for, and with the same refusal of one that is not
  -- there. Before, the own fields of the runtime table, without `provider_id`, are put below the
  -- configuration of each; after, none are. So the two differ by these defaults alone.
  pub resolve_multi_provider_config-build_v1 :
      (raw normalized v : Value) (scenarios : List Value) (asked given fresh : Str)
      (cache : Option Str)
      → is_v1_shape raw ≡ false
      → parse_tier_config raw ≡ ok normalized
      → build_v1 raw ≡ ok v
      → ((resolve_multi_provider_config roots to_text raw scenarios asked given cache fresh).0
          ≡ providers_with roots to_text
              (omit (lit "provider_id") (own (get (lit "runtime") raw)))
              (entries (get (lit "tiers") v))
              scenarios
              asked
              (id_of_run given cache fresh))
        × ((resolve_multi_provider_config roots to_text v scenarios asked given cache fresh).0
            ≡ providers_with roots to_text []
                (entries (get (lit "tiers") v))
                scenarios
                asked
                (id_of_run given cache fresh))
  resolve_multi_provider_config-build_v1 raw normalized v scenarios asked given fresh cache old p
        m =
      let run_id = id_of_run given cache fresh in
      let normal = (old-normalized raw normalized old p).1 in
      let below : List (Str × Value) → List (Str × Value) = omit (lit "provider_id") in
      (
        resolve_accepted raw normalized scenarios asked given fresh cache p
            ∙ emit_providers-with roots to_text normalized scenarios asked run_id
            ∙ ap
                (λ d.
                  providers_with roots to_text (below d) (entries (get (lit "tiers") normalized))
                    scenarios asked run_id)
                (normalized-defaults raw normalized normal)
            ∙ providers_with_same roots to_text (below (own (get (lit "runtime") raw)))
                (get (lit "runtime") raw) _ _ scenarios asked run_id
                (old-Alike raw normalized v old p m),
        resolve_accepted v v scenarios asked given fresh cache (build_v1-accepted raw v m)
            ∙ emit_providers-with roots to_text v scenarios asked run_id
            ∙ ap
                (λ d.
                  providers_with roots to_text (below d) (entries (get (lit "tiers") v)) scenarios
                    asked run_id)
                (migrated-defaults raw v m)
            ∙ unfold omit in refl,
      )
