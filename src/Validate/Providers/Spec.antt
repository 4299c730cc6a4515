-- ===== src/Validate/Providers/Spec.antt =====
-- The providers without an error.
use mathlib.Core.Bool.{false≢true}
use promptfoo_eval_harness.Prelude.{
  sym, ◌∙◌, Option-cases, ℕ, ◌≡◌, refl, ◌↔◌, ◌⊎◌, inl, inr, Bool, true, false, not, ◌&&◌, List, [],
  ◌∷◌, arith, Str, lit, includes, All, Bool-cases, none, if◌then◌else◌,
}
use promptfoo_eval_harness.Js.{Value, str, get, truthy, is_object, is_string, text}
use promptfoo_eval_harness.TierConfig.RuntimeFields.{is_full_string}
use promptfoo_eval_harness.TierConfig.RuntimeFields.Spec.{IsFullString, is_full_string_iff}
use promptfoo_eval_harness.Validate.Received.{Rules, File, missing, unparsable, parsed, Error}
use promptfoo_eval_harness.Validate.Providers.{
  valid_kinds, needs_model, config_path, checks_adapter, check_adapter_field,
  required_adapter_fields, check_model, check_config, check_kind, validate_provider,
}
use promptfoo_eval_harness.Validate.Turns.Spec.{no_errors, collect_iff, IsTurn}

-- A configuration of the agent server with its adapter block filled in.
abbrev pub IsServerConfig : File → Type 0
IsServerConfig (parsed cfg) =
    (is_object (get (lit "adapter") cfg) ≡ true)
    × All (λ k. IsFullString (get k (get (lit "adapter") cfg))) required_adapter_fields
IsServerConfig _ = ⊥

-- A text that is not blank and that the resolver takes.
abbrev pub IsModel : Rules → Value → Type 0
IsModel rules model = IsFullString model × (rules.resolver (text model) ≡ none)

-- A provider of a known kind, with a model where its kind needs one that the resolver takes, and
-- with a configuration of its server where that is to be checked.
abbrev pub IsProvider : Rules → Value → Type 0
IsProvider rules p =
    let kind = text (get (lit "provider_kind") p) in
    (is_object p ≡ true)
    × IsTurn (get (lit "provider_kind") p)
    × ((includes (valid_kinds rules) kind ≡ true)
        × (((needs_model rules kind ≡ false) ⊎ IsModel rules (get (lit "model") p))
            × ((checks_adapter rules kind ≡ false)
                ⊎ IsServerConfig (rules.read (config_path rules p)))))

kind_iff : (v : Value) → ((truthy v && is_string v) ≡ true) ↔ IsTurn v
unfolding truthy is_string
kind_iff (str s) = (λ h. (s, refl, ground arith), λ h. ground arith)
kind_iff v = ground arith

module _ (rules : Rules) where
  check_model_iff :
      (base : Str) (model : Value) → (check_model rules base model ≡ []) ↔ IsModel rules model
  unfolding check_model
  check_model_iff base model =
      let (to, from) = is_full_string_iff model in
      elim (Bool-cases (is_full_string model)) [
        | inl full ↦ elim (Option-cases (rules.resolver (text model))) [
          | inl known ↦ rw (full, known, check_model) (λ h. (to full, refl), λ h. refl)
          | inr (m, e) ↦ rw (full, e, check_model) (λ h. cc, λ h. cc)
        ]
        | inr other ↦
            rw (other, check_model) (λ h. cc, λ h. absurd (false≢true (sym other ∙ from h.0)))
      ]

  check_field_iff :
      (path : Str) (adapter : Value) (i : ℕ) (k : Str)
      → (check_adapter_field rules path adapter i k ≡ []) ↔ IsFullString (get k adapter)
  check_field_iff path adapter i k = ground (arith, is_full_string_iff (get k adapter))

  check_config_iff :
      (base path : Str) (file : File)
      → (check_config rules base path file ≡ []) ↔ IsServerConfig file
  unfolding check_config
  check_config_iff base path missing = (λ h. cc, λ h. absurd h)
  check_config_iff base path (unparsable message) = (λ h. cc, λ h. absurd h)
  check_config_iff base path (parsed cfg) =
      let adapter = get (lit "adapter") cfg in
      let (to, from) =
        collect_iff (λ k. IsFullString (get k adapter)) (check_adapter_field rules path adapter) 0
          required_adapter_fields (check_field_iff path adapter) in
      elim (Bool-cases (is_object adapter)) [
        | inl e ↦ rw e (λ h. (refl, to h), λ h. from h.1)
        | inr e ↦ rw e (λ h. cc, λ h. cc)
      ]

  -- A part that is looked at only under a test.
  only_if :
      (P : Type 0) (test : Bool) (found : List Error)
      → ((found ≡ []) ↔ P)
      → ((if test then found else []) ≡ []) ↔ ((test ≡ false) ⊎ P)
  only_if P true found (to, from) = (λ h. inr (to h), λ h. elim h [ inl e ↦ cc | inr p ↦ from p ])
  only_if P false found same = (λ h. inl refl, λ h. refl)

  check_kind_iff :
      (base kind : Str) (p : Value)
      → (check_kind rules base kind p ≡ []) ↔ (
          ((needs_model rules kind ≡ false) ⊎ IsModel rules (get (lit "model") p))
          × ((checks_adapter rules kind ≡ false)
              ⊎ IsServerConfig (rules.read (config_path rules p))))
  unfolding check_kind
  check_kind_iff base kind p =
      no_errors _ _ _ _
        (only_if (IsModel rules (get (lit "model") p)) (needs_model rules kind) _
          (check_model_iff base (get (lit "model") p)))
        (only_if (IsServerConfig (rules.read (config_path rules p))) (checks_adapter rules kind) _
          (check_config_iff base (config_path rules p) (rules.read (config_path rules p))))

  registered_iff :
      (base kind : Str) (p : Value) (e : Error)
      → ((if not (includes (valid_kinds rules) kind) then e ∷ [] else check_kind rules base kind p)
          ≡ [])
        ↔ ((includes (valid_kinds rules) kind ≡ true)
            × (((needs_model rules kind ≡ false) ⊎ IsModel rules (get (lit "model") p))
                × ((checks_adapter rules kind ≡ false)
                    ⊎ IsServerConfig (rules.read (config_path rules p)))))
  registered_iff base kind p e =
      let (to, from) = check_kind_iff base kind p in
      elim (Bool-cases (includes (valid_kinds rules) kind)) [
        | inl known ↦ rw known (λ h. (refl, to h), λ h. from h.1)
        | inr other ↦ rw other (λ h. cc, λ h. cc)
      ]

  pub validate_provider_iff :
      (base : Str) (p : Value) → (validate_provider rules base p ≡ []) ↔ IsProvider rules p
  unfolding validate_provider includes
  validate_provider_iff base p =
      let kind = get (lit "provider_kind") p in
      let (named, name) = kind_iff kind in
      let (to, from) = registered_iff base (text kind) p _ in
      elim (Bool-cases (is_object p)) [
        | inr other ↦ rw other (λ h. cc, λ h. cc)
        | inl object ↦ elim (Bool-cases (truthy kind && is_string kind)) [
          | inr unnamed ↦
              rw (object, unnamed) (λ h. cc, λ h. absurd (false≢true (sym unnamed ∙ name (h.1))))
          | inl full ↦ rw (object, full) (λ h. (refl, named full, to h), λ (o, n, r). from r)
        ]
      ]
