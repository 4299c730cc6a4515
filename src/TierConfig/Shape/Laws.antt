-- ===== src/TierConfig/Shape/Laws.antt =====
-- Whatever version is parsed, the result is of the new version, with providers that can be run.
use mathlib.Core.Bool.{false≢true}
use promptfoo_eval_harness.Prelude.{
  ◌≡◌, refl, subst, true, false, not, ◌&&◌, ◌||◌, List, [], ◌∷◌, arith, Str, lit, str_eq, is_empty,
  is_blank, All, All-mono, ok-injective, err-ne-ok, ok, ◌>>◌, >>=-returned, >>-ok_iff, guard_iff,
  each_iff, Bool-cases, inl, inr,
}
use promptfoo_eval_harness.Js.{
  Value, str, obj, object, fields, get, entries, lookup, put, truthy, is_object, is_plain, is_array,
  is_string, text, elements,
}
use promptfoo_eval_harness.Js.Laws.{fields-to_fields, lookup-put}
use promptfoo_eval_harness.TierConfig.Shape.{
  is_v1_shape, is_v0_shape, validate_provider, validate_tier, validate_v1_shape, normal_tier,
  normalize_tiers, normalize_v0_to_v1, parse_tier_config, has_providers,
}

-- An object with a provider kind, which is a text that is not empty.
abbrev pub IsProvider : Value → Type 0
IsProvider p =
    (is_object p ≡ true)
    × ((kind : Str) × (get (lit "provider_kind") p ≡ str kind) × (is_empty kind ≡ false))

abbrev pub IsTier : Str × Value → Type 0
IsTier (name, tier) =
    (is_object tier ≡ true)
    × (has_providers tier ≡ true)
    × All IsProvider (elements (get (lit "providers") tier))

-- A configuration whose tiers are an object or an array of such tiers.
abbrev pub IsConfig : Value → Type 0
IsConfig raw =
    (is_object (get (lit "tiers") raw) ≡ true) × All IsTier (entries (get (lit "tiers") raw))

full_text :
    (v : Value) → (truthy v && is_string v) ≡ true → (s : Str) × (v ≡ str s) × (is_empty s ≡ false)
unfolding truthy is_string
full_text (str s) h = (s, refl, ground arith)
full_text v h = ground arith

validate_provider-IsProvider :
    (name : Str) (p : Value) → validate_provider name p ≡ ok tt → IsProvider p
unfolding validate_provider
validate_provider-IsProvider name p h =
    let (object_ok, kind_ok) = (>>-ok_iff _ _).0 h in
    (
      (guard_iff _ _).0 object_ok,
      full_text (get (lit "provider_kind") p) ((guard_iff _ _).0 kind_ok),
    )

validate_tier-IsTier : (t : Str × Value) → validate_tier t ≡ ok tt → IsTier t
unfolding validate_tier
validate_tier-IsTier (name, tier) h =
    let (object_ok, rest) = (>>-ok_iff _ _).0 h in
    let (array_ok, each_ok) = (>>-ok_iff _ _).0 rest in
    (
      (guard_iff _ _).0 object_ok,
      (guard_iff _ _).0 array_ok,
      All-mono (λ p. validate_provider name p ≡ ok tt) IsProvider
          (validate_provider-IsProvider name) _ ((each_iff (validate_provider name) _).0 each_ok),
    )

validate_v1_shape-IsConfig : (raw : Value) → validate_v1_shape raw ≡ ok tt → IsConfig raw
unfolding validate_v1_shape
validate_v1_shape-IsConfig raw h =
    let (object_ok, each_ok) = (>>-ok_iff _ _).0 h in
    (
      (guard_iff _ _).0 object_ok,
      All-mono (λ t. validate_tier t ≡ ok tt) IsTier validate_tier-IsTier _
          ((each_iff validate_tier _).0 each_ok),
    )

normal_tier-IsTier : (name : Str) (agent runtime : Value) → IsTier (name, normal_tier agent runtime)
unfolding get lookup is_object is_array str_eq lit
normal_tier-IsTier name agent runtime = (refl, refl, ((refl, (_, refl, refl)), tt))

put-IsTier :
    (name : Str) (tier : Value) (tiers : List (Str × Value))
    → ((k : Str) → IsTier (k, tier))
    → All IsTier tiers
    → All IsTier (put name tier tiers)
unfolding put
put-IsTier name tier [] h k = (h name, tt)
put-IsTier name tier ((j, w) ∷ tiers) h (k, ks) = elim (Bool-cases (str_eq j name)) [
  | inl e ↦ rw e (h j, ks)
  | inr e ↦ rw e (k, put-IsTier name tier tiers h ks)
]

normalize_tiers-IsTier :
    (runtime : Value) (done tiers : List (Str × Value)) {out : List (Str × Value)}
    → All IsTier done
    → normalize_tiers runtime done tiers ≡ ok out
    → All IsTier out
unfolding normalize_tiers
normalize_tiers-IsTier runtime done [] h e = let same = ok-injective e in rw (← same) h
normalize_tiers-IsTier runtime done ((name, tier) ∷ tiers) h e =
    elim (Bool-cases
      (not (is_string (get (lit "agent") tier)) || is_blank (text (get (lit "agent") tier)))) [
        | inl bad ↦ absurd (err-ne-ok (rw bad at e))
        | inr good ↦
            normalize_tiers-IsTier runtime
              (put name (normal_tier (get (lit "agent") tier) runtime) done) tiers
              (put-IsTier name _ done (λ k. normal_tier-IsTier k _ runtime) h) (rw good at e)
      ]

-- What reading the tiers of an object gives, where they are its property of that name.
tiers_of :
    (ps tiers : List (Str × Value))
    → lookup (lit "tiers") ps ≡ object tiers
    → All IsTier tiers
    → IsConfig (object ps)
unfolding get is_object entries
tiers_of ps tiers e h = rw (fields-to_fields ps, e) (refl, rw (fields-to_fields tiers) h)

tiers_second :
    (version tiers : Value) (ps : List (Str × Value))
    → lookup (lit "tiers") ((lit "version", version) ∷ (lit "tiers", tiers) ∷ ps) ≡ tiers
unfolding lookup str_eq lit
tiers_second version tiers ps = refl

normalize_v0_to_v1-IsConfig : (raw out : Value) → normalize_v0_to_v1 raw ≡ ok out → IsConfig out
unfolding normalize_v0_to_v1
normalize_v0_to_v1-IsConfig raw out h =
    let (tiers, found, rest) =
      >>=-returned (normalize_tiers _ [] (entries (get (lit "tiers") raw))) _ h in
    subst IsConfig (ok-injective rest) (
      tiers_of _ tiers (tiers_second _ (object tiers) _) (
        normalize_tiers-IsTier (get (lit "runtime") raw) [] (entries (get (lit "tiers") raw)) tt
          found))

version_apart : str_eq (lit "version") (lit "tiers") ≡ false
unfolding str_eq lit
version_apart = refl

with_version-IsConfig :
    (raw version : Value)
    → is_plain raw ≡ true
    → IsConfig raw
    → IsConfig (object (put (lit "version") version (entries raw)))
unfolding get is_plain entries
with_version-IsConfig (obj fs) version p h =
    rw
      (
        fields-to_fields (put (lit "version") version (fields fs)),
        lookup-put (lit "version") (lit "tiers") version (fields fs),
        version_apart,
      )
      h
with_version-IsConfig raw version p h = absurd (false≢true p)

v1_branch :
    (raw version out : Value)
    → is_plain raw ≡ true
    → (validate_v1_shape raw >> ok (object (put (lit "version") version (entries raw)))) ≡ ok out
    → IsConfig out
v1_branch raw version out p h =
    let (u, valid, rest) = >>=-returned (validate_v1_shape raw) _ h in
    subst IsConfig (ok-injective rest)
      (with_version-IsConfig raw version p (validate_v1_shape-IsConfig raw valid))

-- A configuration of either version that parses gives one of the new version: its tiers are an
-- object or an array, every tier has an array of providers, and every provider is an object whose
-- provider kind is a text that is not empty.
pub parse_tier_config-IsConfig : (raw out : Value) → parse_tier_config raw ≡ ok out → IsConfig out
unfolding parse_tier_config
parse_tier_config-IsConfig raw out h = elim (Bool-cases (is_plain raw)) [
  | inr other ↦ absurd (err-ne-ok (rw other at h))
  | inl plain ↦ elim (Bool-cases (is_v1_shape raw)) [
    | inl new ↦ v1_branch raw _ out plain (rw (plain, new) at h)
    | inr old ↦ elim (Bool-cases (is_v0_shape raw)) [
      | inl legacy ↦ normalize_v0_to_v1-IsConfig raw out (rw (plain, old, legacy) at h)
      | inr unknown ↦ absurd (err-ne-ok (rw (plain, old, unknown) at h))
    ]
  ]
]
