-- ===== src/Gates/Again.antt =====
-- The gates behind a call that has settled them.
use promptfoo_eval_harness.Prelude.{
  ℕ, zero, suc, ◌≡◌, refl, ap, ◌∙◌, inl, inr, true, false, ◌||◌, Option, none, some, [], ◌∷◌, arith,
  Str, str_eq, str_eq_refl, is_empty, Result, ok, err, Bool-cases, Option-cases, >>=-returned,
  ok-injective, subst,
}
use promptfoo_eval_harness.Gates.{
  Caps, Error, Gates, Outside, global_slot, kind_slot, get_global_limit, caps_in, find_cap, reload,
  load_tier_concurrency_config, get_per_kind_limit, take_kind, acquire_kind, acquire_from, acquire,
}

get_global_limit-made :
    (out : Outside) (gates : Gates) (n : ℕ) (made : Gates)
    → get_global_limit out gates ≡ ok (n, made)
    → made.global ≡ some n
unfolding get_global_limit
get_global_limit-made out gates n made h = ground arith

-- The configuration is cached for this path, or overridden.
abbrev IsLoaded : Str → Caps → Gates → Type 0
IsLoaded path caps gates =
    (gates.cache ≡ some caps) × ((gates.override || str_eq gates.cache_path path) ≡ true)

reload-IsLoaded :
    (out : Outside) (gates : Gates) (caps : Caps) (loaded : Gates)
    → reload out gates ≡ ok (caps, loaded)
    → IsLoaded out.config_path caps loaded × (loaded.global ≡ gates.global)
reload-IsLoaded out gates caps loaded h =
    let (read, found, rest) = >>=-returned (caps_in (out.read out.config_path)) _ h in
    ground (arith, str_eq_refl out.config_path)

load-IsLoaded :
    (out : Outside) (gates : Gates) (caps : Caps) (loaded : Gates)
    → load_tier_concurrency_config out gates ≡ ok (caps, loaded)
    → IsLoaded out.config_path caps loaded × (loaded.global ≡ gates.global)
unfolding load_tier_concurrency_config
load-IsLoaded out gates caps loaded h = elim (Option-cases gates.cache) [
  | inl e ↦ reload-IsLoaded out gates caps loaded (rw e at h)
  | inr (known, e) ↦ elim (Bool-cases (gates.override || str_eq gates.cache_path out.config_path)) [
    | inl fits ↦
        subst (λ p. IsLoaded out.config_path p.0 p.1 × (p.1.global ≡ gates.global))
          (ok-injective (rw (e, fits) at h)) ((refl, fits), refl)
    | inr stale ↦ reload-IsLoaded out gates caps loaded (rw (e, stale) at h)
  ]
]

made_limit :
    (later : Outside) (width : ℕ) (gates : Gates)
    → gates.global ≡ some width
    → get_global_limit later gates ≡ ok (width, gates)
unfolding get_global_limit
made_limit later width gates g = ground arith

-- The gate of a kind that is there is given again, and nothing else changes with it.
per_kind_again :
    (kind : Str) (n : ℕ) (gates : Gates)
    → get_per_kind_limit kind n (get_per_kind_limit kind n gates).1
      ≡ get_per_kind_limit kind n gates
unfolding get_per_kind_limit find_cap
per_kind_again kind n gates = elim (Option-cases (find_cap kind gates.kinds)) [
  | inl fresh ↦
      rw (fresh, get_per_kind_limit)
        (rw (str_eq_refl kind, find_cap) (rw (fresh, get_per_kind_limit) refl))
  | inr (m, e) ↦
      rw (e, get_per_kind_limit) (rw (e, get_per_kind_limit) (rw (e, get_per_kind_limit) refl))
]

per_kind-global :
    (kind : Str) (n : ℕ) (gates : Gates) → (get_per_kind_limit kind n gates).1.global ≡ gates.global
unfolding get_per_kind_limit
per_kind-global kind n gates = ground arith

per_kind-IsLoaded :
    (kind path : Str) (n : ℕ) (caps : Caps) (gates : Gates)
    → IsLoaded path caps gates
    → IsLoaded path caps (get_per_kind_limit kind n gates).1
unfolding get_per_kind_limit
per_kind-IsLoaded kind path n caps gates (c, p) = elim (Option-cases (find_cap kind gates.kinds)) [
  | inl fresh ↦ rw (fresh, get_per_kind_limit) (c, p)
  | inr (m, e) ↦ rw (e, get_per_kind_limit) (c, p)
]

module _ (later : Outside) (kind : Str) (width : ℕ) (named : is_empty kind ≡ false) where
  loaded_config :
      (caps : Caps) (gates : Gates)
      → IsLoaded later.config_path caps gates
      → load_tier_concurrency_config later gates ≡ ok (caps, gates)
  unfolding load_tier_concurrency_config
  loaded_config caps gates (c, p) = ground arith

  -- With the global gate made and the configuration cached, nothing outside is asked.
  acquire_loaded :
      (caps : Caps) (gates : Gates)
      → IsLoaded later.config_path caps gates
      → gates.global ≡ some width
      → acquire later kind gates ≡ take_kind kind width (find_cap kind caps) gates
  unfolding acquire acquire_from acquire_kind
  acquire_loaded caps gates l g =
      rw (made_limit later width gates g, acquire_from)
        (rw (named, loaded_config caps gates l, acquire_kind) refl)

  take_again :
      (caps : Caps) (cap : Option ℕ) (loaded : Gates)
      → find_cap kind caps ≡ cap
      → IsLoaded later.config_path caps loaded
      → loaded.global ≡ some width
      → acquire later kind (take_kind kind width cap loaded).gates ≡ take_kind kind width cap loaded
  unfolding take_kind get_per_kind_limit find_cap
  take_again caps none loaded f l g =
      acquire_loaded caps loaded l g ∙ ap (λ o. take_kind kind width o loaded) f
  take_again caps (some zero) loaded f l g =
      acquire_loaded caps loaded l g ∙ ap (λ o. take_kind kind width o loaded) f
  take_again caps (some (suc n)) loaded f l g =
      let taken = get_per_kind_limit kind (suc n) loaded in
      acquire_loaded caps taken.1 (per_kind-IsLoaded kind later.config_path (suc n) caps loaded l)
        (per_kind-global kind (suc n) loaded ∙ g)
      ∙ (ap (λ o. take_kind kind width o taken.1) f
          ∙ ap
              (λ t. record {
                slots = global_slot width ∷ kind_slot kind t.0 ∷ [];
                gates = t.1;
                thrown = none;
              })
              (per_kind_again kind (suc n) loaded))

  again_loaded :
      (out : Outside) (made : Gates) (l : Result Error (Caps × Gates))
      → out.config_path ≡ later.config_path
      → made.global ≡ some width
      → load_tier_concurrency_config out made ≡ l
      → (acquire_kind kind width made l).thrown ≡ none
      → acquire later kind (acquire_kind kind width made l).gates ≡ acquire_kind kind width made l
  unfolding acquire_kind
  again_loaded out made (err e) same g h t = cc
  again_loaded out made (ok (caps, loaded)) same g h t =
      let (fits, kept) = load-IsLoaded out made caps loaded h in
      take_again caps (find_cap kind caps) loaded refl
        (subst (λ path. IsLoaded path caps loaded) same fits) (kept ∙ g)

again_made :
    (out later : Outside) (kind : Str) (gates : Gates) (r : Result Error (ℕ × Gates))
    → out.config_path ≡ later.config_path
    → get_global_limit out gates ≡ r
    → (acquire_from out kind gates r).thrown ≡ none
    → acquire later kind (acquire_from out kind gates r).gates ≡ acquire_from out kind gates r
unfolding acquire_from acquire
again_made out later kind gates (err e) same h t = cc
again_made out later kind gates (ok (width, made)) same h t =
    let made_at = get_global_limit-made out gates width made h in
    elim (Bool-cases (is_empty kind)) [
      | inl unnamed ↦
          rw unnamed (rw (made_limit later width made made_at, acquire_from) (rw unnamed refl))
      | inr named ↦
          rw named
            (again_loaded later kind width named out made _ same made_at refl (rw named at t))
    ]

-- A call of `acquire` that did not throw settles the gates: a later call for the same kind, with the
-- configuration at the same path, takes the same slots with the same widths and changes nothing,
-- whatever the environment and the file say by then.
pub acquire_again :
    (out later : Outside) (kind : Str) (gates : Gates)
    → out.config_path ≡ later.config_path
    → (acquire out kind gates).thrown ≡ none
    → acquire later kind (acquire out kind gates).gates ≡ acquire out kind gates
unfolding acquire
acquire_again out later kind gates same t = again_made out later kind gates _ same refl t
