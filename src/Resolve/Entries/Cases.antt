-- ===== src/Resolve/Entries/Cases.antt =====
-- Which cases the providers of a run are for.
use mathlib.Core.Bool.{false≢true}
use promptfoo_eval_harness.Prelude.{
  ◌≡◌, sym, ap, ◌∙◌, inl, inr, List, [], ◌∷◌, map, Str, lit, is_empty, includes, Bool-cases,
  if◌then◌else◌, Option, Result, ok, err, err-ne-ok, ok-injective,
}
use promptfoo_eval_harness.Js.{Value, get, entries, truthy, lookup, omit}
use promptfoo_eval_harness.TierConfig.Shape.{parse_tier_config}
use promptfoo_eval_harness.TierConfig.RuntimeFields.{keys}
use promptfoo_eval_harness.Resolve.{Roots}
use promptfoo_eval_harness.Resolve.Entries.{
  Error, unknown_tier, own, each_tier, emit_providers, resolve_multi_provider_config, get_run_id,
}
use promptfoo_eval_harness.Resolve.Entries.Distinct.{
  Distinct, case_id_of, tier_ids, resolve_multi_provider_config-Distinct,
}
use promptfoo_eval_harness.Resolve.Entries.Loops.{
  IsTier, IsSelected, IsCase, ListsCases, tier_ids_iff,
}

IsCase-map :
    (P Q : Str → Value → Type 0) (run_id : Str) (scenarios : List Value) (id : Str)
    → ((name : Str) (tier : Value) → P name tier → Q name tier)
    → IsCase P run_id scenarios id
    → IsCase Q run_id scenarios id
IsCase-map P Q run_id scenarios id f (name, tier, p, s, there, high, few, e) =
    (name, tier, p, s, f name tier there, high, few, e)

-- The id of a run: the one that is given, or else the one of the process.
abbrev pub id_of_run : Str → Option Str → Str → Str
id_of_run given cache fresh = if is_empty given then get_run_id cache fresh else given

module _ (roots : Roots) (to_text : Value → Str) where
  tiers-ListsCases :
      (run_id : Str) (defaults : List (Str × Value)) (chosen tiers : List (Str × Value))
      (asked : Str) (scenarios providers : List Value)
      → ((name : Str) (tier : Value) → IsTier chosen name tier → IsSelected tiers asked name tier)
      → ((name : Str) (tier : Value) → IsSelected tiers asked name tier → IsTier chosen name tier)
      → each_tier roots to_text run_id defaults chosen scenarios ≡ providers
      → ListsCases (IsSelected tiers asked) run_id scenarios (map case_id_of providers)
  tiers-ListsCases run_id defaults chosen tiers asked scenarios providers f g same id =
      let (to, from) = tier_ids_iff roots to_text run_id defaults chosen scenarios id in
      let e : tier_ids roots to_text run_id defaults chosen scenarios ≡ map case_id_of providers =
        ap (map case_id_of) same in
      (
        λ h. IsCase-map _ _ run_id scenarios id f (to (ap (λ ids. includes ids id) e ∙ h)),
        λ c. sym (ap (λ ids. includes ids id) e) ∙ from (IsCase-map _ _ run_id scenarios id g c),
      )

  emit_providers-ListsCases :
      (normalized : Value) (scenarios providers : List Value) (asked run_id : Str)
      → emit_providers roots to_text normalized scenarios asked run_id ≡ ok providers
      → ListsCases
          (IsSelected (entries (get (lit "tiers") normalized)) asked)
          run_id
          scenarios
          (map case_id_of providers)
  unfolding emit_providers
  emit_providers-ListsCases normalized scenarios providers asked run_id e =
      let tiers = entries (get (lit "tiers") normalized) in
      let defaults = omit (lit "provider_id") (own (get (lit "runtime") normalized)) in
      elim (Bool-cases (is_empty asked)) [
        | inl none_asked ↦
            let same : ◌≡◌ {A = Result Error (List Value)}
                (ok (each_tier roots to_text run_id defaults tiers scenarios)) (ok providers) =
              rw none_asked at e in
            tiers-ListsCases run_id defaults tiers tiers asked scenarios providers
              (λ name tier t. inl (none_asked, t))
              (λ name tier s. elim s [
                | inl (u, t) ↦ t
                | inr (u, n, v) ↦ elim (false≢true (sym u ∙ none_asked)) [ ]
              ])
              (ok-injective same)
        | inr one_asked ↦ elim (Bool-cases (truthy (lookup asked tiers))) [
          | inl known ↦
              let one : List (Str × Value) = (asked, lookup asked tiers) ∷ [] in
              let same : ◌≡◌ {A = Result Error (List Value)}
                  (ok (each_tier roots to_text run_id defaults one scenarios)) (ok providers) =
                rw (one_asked, known) at e in
              tiers-ListsCases run_id defaults one tiers asked scenarios providers
                (λ name tier t. elim t [
                  | inl (n, v) ↦ inr (one_asked, n, v)
                  | inr none_left ↦ elim none_left [ ]
                ])
                (λ name tier s. elim s [
                  | inl (u, t) ↦ elim (false≢true (sym one_asked ∙ u)) [ ]
                  | inr (u, n, v) ↦ inl (n, v)
                ])
                (ok-injective same)
          | inr unknown ↦
              let same : ◌≡◌ {A = Result Error (List Value)} (err (unknown_tier asked))
                  (ok providers) =
                rw (one_asked, unknown) at e in
              elim (err-ne-ok same) [ ]
        ]
      ]

  -- Where the tiers of a configuration have different names, the providers that are emitted for it
  -- are for these cases: every scenario, by its place, with every provider, by its place, of every
  -- tier, or of the tier that is asked for if one is. There is no other case, and none has two
  -- providers.
  pub resolve_multi_provider_config-Cases :
      (tier_config normalized : Value) (scenarios providers : List Value)
      (tier_name given fresh : Str) (cache : Option Str)
      → parse_tier_config tier_config ≡ ok normalized
      → Distinct (keys (entries (get (lit "tiers") normalized)))
      → (resolve_multi_provider_config roots to_text tier_config scenarios tier_name given cache
          fresh).0
        ≡ ok providers
      → ListsCases
          (IsSelected (entries (get (lit "tiers") normalized)) tier_name)
          (id_of_run given cache fresh)
          scenarios
          (map case_id_of providers)
        × Distinct (map case_id_of providers)
  unfolding resolve_multi_provider_config
  resolve_multi_provider_config-Cases config normalized scenarios providers name given fresh cache p
        h e =
      let f = rw (resolve_multi_provider_config, p) at e in
      let apart =
        resolve_multi_provider_config-Distinct roots to_text config normalized scenarios providers
          name given fresh cache p h e in
      elim (Bool-cases (is_empty given)) [
        | inl none_given ↦ (
          rw none_given (
              emit_providers-ListsCases normalized scenarios providers name (get_run_id cache fresh)
                (rw none_given at f)),
          apart,
        )
        | inr some_given ↦ (
          rw some_given (
              emit_providers-ListsCases normalized scenarios providers name given
                (rw some_given at f)),
          apart,
        )
      ]
