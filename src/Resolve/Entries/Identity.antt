-- ===== src/Resolve/Entries/Identity.antt =====
-- The identity of a case: its id, and the keys that the resolver owns.
use promptfoo_eval_harness.Prelude.{
  ℕ, ◌≡◌, refl, ap, sym, ◌∙◌, Bool, true, false, not, List, [], ◌∷◌, ◌++◌, append_assoc, arith, Str,
  lit, str_eq, all, ◌==◌, Bool-cases, inl, inr,
}
use promptfoo_eval_harness.Js.{Value, null, str, get, lookup, put, spread, or_else, truthy, decimal}
use promptfoo_eval_harness.Js.Laws.{
  lookup-put_same, lookup-put_other, decimal_injective, decimal-no_colon,
}
use promptfoo_eval_harness.Resolve.Entries.{
  build_case_id, own, rest_of, owned, label_field, entry_config, is_agent_server,
}

abbrev no_colon : Str → Bool
no_colon = all (λ c. not (c == 58))

no_colon-colon : (y e : Str) → no_colon (y ++ (58 ∷ e)) ≡ false
no_colon-colon [] e = refl
no_colon-colon (c ∷ y) e = ground (arith, no_colon-colon y e)

-- The text behind the last colon, and the text before it.
last_colon_injective :
    (x y d e : Str)
    → no_colon d ≡ true
    → no_colon e ≡ true
    → x ++ (58 ∷ d) ≡ y ++ (58 ∷ e)
    → (x ≡ y) × (d ≡ e)
last_colon_injective [] [] d e h k eq = (refl, cc)
last_colon_injective [] (c ∷ y) d e h k eq =
    let same : d ≡ y ++ (58 ∷ e) = cc in ground (arith, ap no_colon same, no_colon-colon y e)
last_colon_injective (c ∷ x) [] d e h k eq =
    let same : x ++ (58 ∷ d) ≡ e = cc in ground (arith, ap no_colon same, no_colon-colon x d)
last_colon_injective (a ∷ x) (b ∷ y) d e h k eq =
    let (first, last) = last_colon_injective x y d e h k cc in (cc, last)

append_injective : (xs ys zs : Str) → xs ++ ys ≡ xs ++ zs → ys ≡ zs
append_injective [] ys zs h = h
append_injective (x ∷ xs) ys zs h = append_injective xs ys zs cc

parts :
    (run_id tier : Str) (p s : ℕ)
    → build_case_id tier p s run_id
      ≡ ((run_id ++ (58 ∷ tier)) ++ (58 ∷ (112 ∷ decimal p))) ++ (58 ∷ (115 ∷ decimal s))
unfolding build_case_id
parts run_id tier p s = sym (
    append_assoc (run_id ++ (58 ∷ tier)) (58 ∷ (112 ∷ decimal p)) (58 ∷ (115 ∷ decimal s))
    ∙ append_assoc run_id (58 ∷ tier) _)

-- The ids of two cases of a run are equal only for the same tier, provider and scenario.
pub build_case_id_injective :
    (tier other : Str) (p q s r : ℕ) (run_id : Str)
    → build_case_id tier p s run_id ≡ build_case_id other q r run_id
    → (tier ≡ other) × (p ≡ q) × (s ≡ r)
unfolding build_case_id
build_case_id_injective tier other p q s r run_id h =
    let (scenario, last) =
      last_colon_injective _ _ (115 ∷ decimal s) (115 ∷ decimal r) (decimal-no_colon s)
        (decimal-no_colon r) (sym (parts run_id tier p s) ∙ h ∙ parts run_id other q r) in
    let (provider, middle) =
      last_colon_injective (run_id ++ (58 ∷ tier)) (run_id ++ (58 ∷ other)) (112 ∷ decimal p)
        (112 ∷ decimal q) (decimal-no_colon p) (decimal-no_colon q) scenario in
    let same : 58 ∷ tier ≡ 58 ∷ other = append_injective run_id _ _ provider in
    (cc, decimal_injective p q cc, decimal_injective s r cc)

lookup-owned :
    (entry : Value) (run_id case_id : Str) (base : List (Str × Value))
    → let config = spread base (owned entry run_id case_id) in
      (lookup (lit "case_id") config ≡ str case_id)
      × (lookup (lit "run_id") config ≡ str run_id)
      × (lookup (lit "provider_kind") config ≡ get (lit "provider_kind") entry)
      × (lookup (lit "model") config ≡ or_else (get (lit "model") entry) null)
unfolding spread str_eq lit
lookup-owned entry run_id case_id base =
    let kind = get (lit "provider_kind") entry in
    let model = or_else (get (lit "model") entry) null in
    let with_kind = put (lit "provider_kind") kind base in
    let with_model = put (lit "model") model with_kind in
    let with_run = put (lit "run_id") (str run_id) with_model in
    (
      lookup-put_same (lit "case_id") (str case_id) with_run,
      lookup-put_other (lit "case_id") (lit "run_id") (str case_id) with_run refl
          ∙ lookup-put_same (lit "run_id") (str run_id) with_model,
      lookup-put_other (lit "case_id") (lit "provider_kind") (str case_id) with_run refl
          ∙ lookup-put_other (lit "run_id") (lit "provider_kind") (str run_id) with_model refl
          ∙ lookup-put_other (lit "model") (lit "provider_kind") model with_kind refl
          ∙ lookup-put_same (lit "provider_kind") kind base,
      lookup-put_other (lit "case_id") (lit "model") (str case_id) with_run refl
          ∙ lookup-put_other (lit "run_id") (lit "model") (str run_id) with_model refl
          ∙ lookup-put_same (lit "model") model with_kind,
    )

lookup-label_field :
    (key : Str) (label : Value) (base : List (Str × Value))
    → str_eq (lit "provider_label") key ≡ false
    → lookup key (spread base (label_field label)) ≡ lookup key base
unfolding spread
lookup-label_field key label base h = elim (Bool-cases (truthy label)) [
  | inl e ↦ rw e (lookup-put_other (lit "provider_label") key label base h)
  | inr e ↦ rw e refl
]

-- Whatever the entry of a provider and the runtime table say, the configuration that is emitted
-- for it has the case's own id, the run's id, the entry's kind, and its model or null.
pub entry_config-owned :
    (entry : Value) (run_id case_id : Str) (runtime_defaults : List (Str × Value))
    → let config = entry_config entry run_id case_id runtime_defaults in
      (lookup (lit "case_id") config ≡ str case_id)
      × (lookup (lit "run_id") config ≡ str run_id)
      × (lookup (lit "provider_kind") config ≡ get (lit "provider_kind") entry)
      × (lookup (lit "model") config ≡ or_else (get (lit "model") entry) null)
unfolding entry_config str_eq lit
entry_config-owned entry run_id case_id defaults = elim (Bool-cases (is_agent_server entry)) [
  | inl e ↦ rw e (
      lookup-owned entry run_id case_id (
        spread defaults
          (rest_of (lit "provider_kind" ∷ lit "model" ∷ lit "label" ∷ []) (own entry))))
  | inr e ↦
      let label = get (lit "label") entry in
      let rest =
        rest_of (lit "agent_config" ∷ lit "provider_kind" ∷ lit "model" ∷ lit "label" ∷ [])
          (own entry) in
      let base = spread (spread defaults rest) (owned entry run_id case_id) in
      let (a, b, c, d) = lookup-owned entry run_id case_id (spread defaults rest) in
      rw e (
        lookup-label_field (lit "case_id") label base refl ∙ a,
        lookup-label_field (lit "run_id") label base refl ∙ b,
        lookup-label_field (lit "provider_kind") label base refl ∙ c,
        lookup-label_field (lit "model") label base refl ∙ d,
      )
]
