-- ===== src/Resolve/Package/Chosen.antt =====
-- What a resolved configuration is made of.
use promptfoo_eval_harness.Prelude.{
  ◌≡◌, refl, ap, ◌∙◌, subst, true, false, ◌⊎◌, inl, inr, List, [], ◌∷◌, Str, lit, str_eq, Option,
  Bool-cases, Result, ok, err, Result-cases, >>=-returned, err-ne-ok, ok-injective, ◌>>=◌, map,
}
use promptfoo_eval_harness.Js.{Value, get, lookup, entries, put, array, object}
use promptfoo_eval_harness.Js.Laws.{fields-to_fields, lookup-put_same, lookup-put_other}
use promptfoo_eval_harness.Resolve.{Roots}
use promptfoo_eval_harness.Resolve.Entries.{resolve_multi_provider_config, bridge_file_url}
use promptfoo_eval_harness.Resolve.Entries
use promptfoo_eval_harness.Resolve.Blocks.{is_v1_raw_shape}
use promptfoo_eval_harness.Resolve.Package.{
  Readers, Prepared, prepare, emitted, only_provider, choose, with_providers, resolve_config_file,
  with_provider_id,
}

get-with_providers :
    (rewritten : Value) (providers : List Value)
    → get (lit "providers") (with_providers rewritten providers) ≡ array providers
unfolding get
get-with_providers rewritten providers =
    ap (lookup (lit "providers"))
      (fields-to_fields (put (lit "providers") (array providers) (entries rewritten)))
    ∙ lookup-put_same (lit "providers") (array providers) (entries rewritten)

get-with_providers_other :
    (rewritten : Value) (providers : List Value) (key : Str)
    → str_eq (lit "providers") key ≡ false
    → get key (with_providers rewritten providers) ≡ lookup key (entries rewritten)
unfolding get
get-with_providers_other rewritten providers key h =
    ap (lookup key) (fields-to_fields (put (lit "providers") (array providers) (entries rewritten)))
    ∙ lookup-put_other (lit "providers") key (array providers) (entries rewritten) h

module _ (roots : Roots) (readers : Readers) (cache : Option Str) where
  -- The providers that the tier configuration and the tests select: those that are emitted for the
  -- new version, the only one for the old version.
  abbrev pub Selects : Prepared → Value → List Value → Type 0
  Selects prepared raw_tier providers =
      ((is_v1_raw_shape raw_tier ≡ true)
        × ((emitted : List Value) × ((resolve_multi_provider_config roots (readers.to_text) raw_tier
                (object [] ∷ []) (prepared.eval_tier) [] cache (readers.fresh)).0
              ≡ ok emitted)
            × (providers ≡ map (with_provider_id roots) emitted)))
      ⊎ ((is_v1_raw_shape raw_tier ≡ false)
          × ((p : Value) × (only_provider roots readers prepared raw_tier ≡ ok p)
              × (providers ≡ p ∷ [])))

  emitted-ok :
      (rewritten v : Value) (r : Result Entries.Error (List Value)) (after : Option Str)
      → (emitted roots readers rewritten (r, after)).0 ≡ ok v
      → (ps : List Value) × (r ≡ ok ps)
        × (with_providers rewritten (map (with_provider_id roots) ps) ≡ v)
  unfolding emitted
  emitted-ok rewritten v (ok ps) after h = (ps, refl, ok-injective h)
  emitted-ok rewritten v (err e) after h = elim (err-ne-ok h) [ ]

  choose-Selects :
      (prepared : Prepared) (raw_tier v : Value)
      → (choose roots readers prepared raw_tier cache).0 ≡ ok v
      → (providers : List Value) × (with_providers (prepared.rewritten) providers ≡ v)
        × Selects prepared raw_tier providers
  choose-Selects prepared raw_tier v h = elim (Bool-cases (is_v1_raw_shape raw_tier)) [
    | inl new ↦
        let r =
          resolve_multi_provider_config roots (readers.to_text) raw_tier (object [] ∷ [])
            (prepared.eval_tier) [] cache (readers.fresh) in
        let (ps, e, same) =
          emitted-ok (prepared.rewritten) v r.0 r.1 (unfold choose in rw new at h) in
        (map (with_provider_id roots) ps, same, inl (new, (ps, e, refl)))
    | inr old ↦
        let k : (only_provider roots readers prepared raw_tier >>= λ p.
        ok (with_providers (prepared.rewritten) (p ∷ [])))
            ≡ ok v =
          unfold choose in rw old at h in
        let (p, e, same) = >>=-returned (only_provider roots readers prepared raw_tier) _ k in
        (p ∷ [], ok-injective same, inr (old, (p, e, refl)))
  ]

  -- A configuration that is resolved has, under each key but `providers`, what the package's own
  -- configuration has there with its file references rewritten; under `providers` it has those that
  -- the tier selects. For a tier configuration of the new version these are the ones emitted for
  -- it, with their ids resolved; for one of the old version there is a single one.
  pub resolve_config_file-Selects :
      (path : Str) (v : Value)
      → (resolve_config_file roots readers path cache).0 ≡ ok v
      → (prepared : Prepared) × (raw_tier : Value) × (providers : List Value) × (prepare roots
            readers path
          ≡ ok prepared)
        × (readers.read_toml (readers.tier_config_path) ≡ ok raw_tier)
        × (get (lit "providers") v ≡ array providers)
        × ((key : Str)
            → str_eq (lit "providers") key ≡ false
            → get key v ≡ lookup key (entries (prepared.rewritten)))
        × Selects prepared raw_tier providers
  unfolding resolve_config_file
  resolve_config_file-Selects path v h = elim (Result-cases (prepare roots readers path)) [
    | inl (e, p) ↦ elim (err-ne-ok {e = e} {a = v} (rw (resolve_config_file, p) at h)) [ ]
    | inr (prepared, p) ↦ elim (Result-cases (readers.read_toml (readers.tier_config_path))) [
      | inl (e, q) ↦ elim (err-ne-ok {e = e} {a = v} (rw (resolve_config_file, p, q) at h)) [ ]
      | inr (raw_tier, q) ↦
          let (providers, same, selects) =
            choose-Selects prepared raw_tier v (rw (resolve_config_file, p, q) at h) in
          (
            prepared,
            raw_tier,
            providers,
            p,
            q,
            subst (λ w. get (lit "providers") w ≡ array providers) same
                (get-with_providers (prepared.rewritten) providers),
            λ key other.
                subst (λ w. get key w ≡ lookup key (entries (prepared.rewritten))) same
                  (get-with_providers_other (prepared.rewritten) providers key other),
            selects,
          )
    ]
  ]
