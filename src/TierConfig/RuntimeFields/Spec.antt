-- ===== src/TierConfig/RuntimeFields/Spec.antt =====
-- The runtime tables that pass: a description by types of the fields.
use mathlib.Core.Bool.{false≢true}
use promptfoo_eval_harness.Prelude.{
  ℕ, ◌≡◌, refl, ap, ◌↔◌, ◌⊎◌, inl, inr, Bool, true, false, arith, Str, lit, includes, All, is_blank,
  ok, guard, guard_iff, both_iff, each-guard_iff,
}
use promptfoo_eval_harness.Js.{
  pos, integer, Value, undefined, bool, num, str, arr, Items, items, get, entries, is_string,
  is_boolean, is_array, is_undefined, elements,
}
use promptfoo_eval_harness.TierConfig.RuntimeFields.{
  string_fields, string_optional_fields, non_empty_string_optional_fields,
  non_negative_integer_optional_fields, boolean_optional_fields, allowed_runtime_fields, is_count,
  is_full_string, optional, keys, normalize_empty_output_retries, validate_plugin_subdirs,
  validate_presence, validate_optional, validate_runtime, bad_plugin_subdirs, ignore, missing_field,
  unexpected_field, Error, not_string, not_full_string, not_count, not_boolean,
}

abbrev pub IsString : Value → Type 0
IsString v = (s : Str) × (v ≡ str s)

abbrev pub IsFullString : Value → Type 0
IsFullString v = (s : Str) × (v ≡ str s) × (is_blank s ≡ false)

abbrev pub IsBoolean : Value → Type 0
IsBoolean v = (b : Bool) × (v ≡ bool b)

abbrev pub IsCount : Value → Type 0
IsCount v = (n : ℕ) × (v ≡ num (integer (pos n)))

abbrev pub IsPluginList : Value → Type 0
IsPluginList v = (vs : Items) × (v ≡ arr vs) × All IsFullString (items vs)

-- Absent, or of the kind.
abbrev pub AbsentOr : (Value → Type 0) → Value → Type 0
AbsentOr P v = (v ≡ undefined) ⊎ P v

-- The table has every required field at its type and no unknown field, and each optional field that
-- it has is of its type.
pub record IsRuntime (runtime : Value) : Type 0 where
  pub texts : All (λ f. IsString (get f runtime)) string_fields
  pub print_logs : IsBoolean (get (lit "print_logs") runtime)
  pub known : All (λ f. includes allowed_runtime_fields f ≡ true) (keys (entries runtime))
  pub retries : AbsentOr IsCount (get (lit "empty_output_retries") runtime)
  pub optional_texts : All (λ f. AbsentOr IsString (get f runtime)) string_optional_fields
  pub full_texts : All (λ f. AbsentOr IsFullString (get f runtime)) non_empty_string_optional_fields
  pub counts : All (λ f. AbsentOr IsCount (get f runtime)) non_negative_integer_optional_fields
  pub booleans : All (λ f. AbsentOr IsBoolean (get f runtime)) boolean_optional_fields
  pub plugins : AbsentOr IsPluginList (get (lit "plugin_subdirs") runtime)

is_string_iff : (v : Value) → (is_string v ≡ true) ↔ IsString v
unfolding is_string
is_string_iff (str s) = (λ h. (s, refl), λ h. refl)
is_string_iff v = ground arith

is_boolean_iff : (v : Value) → (is_boolean v ≡ true) ↔ IsBoolean v
unfolding is_boolean
is_boolean_iff (bool b) = (λ h. (b, refl), λ h. refl)
is_boolean_iff v = ground arith

is_count_iff : (v : Value) → (is_count v ≡ true) ↔ IsCount v
is_count_iff (num (integer (pos n))) = (λ h. (n, refl), λ h. refl)
is_count_iff v = ground arith

pub is_full_string_iff : (v : Value) → (is_full_string v ≡ true) ↔ IsFullString v
unfolding is_string
is_full_string_iff (str s) = (λ h. (s, refl, ground arith), λ h. ground arith)
is_full_string_iff v = ground arith

optional_iff :
    (P : Value → Type 0) (test : Value → Bool) (v : Value)
    → ((test v ≡ true) ↔ P v)
    → (optional test v ≡ true) ↔ AbsentOr P v
unfolding is_undefined
optional_iff P test undefined h = (λ e. inl refl, λ e. refl)
optional_iff P test v h = ground arith

plugin_items : (vs : Items) → AbsentOr IsPluginList (arr vs) → All IsFullString (items vs)
unfolding is_undefined
plugin_items vs (inl e) = absurd (false≢true (ap is_undefined e))
plugin_items vs (inr (ws, e, h)) = rw (ap elements e) h

plugins_iff : (v : Value) → (validate_plugin_subdirs v ≡ ok tt) ↔ AbsentOr IsPluginList v
unfolding validate_plugin_subdirs is_undefined is_array
plugins_iff undefined = (λ h. inl refl, λ h. refl)
plugins_iff (arr vs) =
    let (to, from) =
      each-guard_iff IsFullString is_full_string (λ _. bad_plugin_subdirs) is_full_string_iff
        (items vs) in
    (λ h. inr (vs, refl, to h), λ h. from (plugin_items vs h))
plugins_iff v = ground arith

guard-IsBoolean_iff : (e : Error) (v : Value) → (guard (is_boolean v) e ≡ ok tt) ↔ IsBoolean v
guard-IsBoolean_iff e v =
    let (to, from) = guard_iff (is_boolean v) e in
    (λ h. (is_boolean_iff v).0 (to h), λ h. from ((is_boolean_iff v).1 h))

retries_iff : (v : Value) → (ignore (normalize_empty_output_retries v) ≡ ok tt) ↔ AbsentOr IsCount v
unfolding normalize_empty_output_retries
retries_iff v = let (to, from) = optional_iff IsCount is_count v (is_count_iff v) in ground arith

validate_presence_iff :
    (runtime : Value)
    → (validate_presence runtime ≡ ok tt) ↔ (
        All (λ f. IsString (get f runtime)) string_fields
        × (IsBoolean (get (lit "print_logs") runtime)
            × All (λ f. includes allowed_runtime_fields f ≡ true) (keys (entries runtime))))
unfolding validate_presence
validate_presence_iff runtime =
    both_iff _ _ _ _
      (each-guard_iff _ (λ f. is_string (get f runtime)) missing_field
        (λ f. is_string_iff (get f runtime)) string_fields)
      (both_iff _ _ _ _ (guard-IsBoolean_iff (missing_field (lit "print_logs")) _) (
        each-guard_iff _ (includes allowed_runtime_fields) unexpected_field (λ f. (λ h. h, λ h. h))
          (keys (entries runtime))))

validate_optional_iff :
    (runtime : Value)
    → (validate_optional runtime ≡ ok tt) ↔ (
        All (λ f. AbsentOr IsString (get f runtime)) string_optional_fields
        × (All (λ f. AbsentOr IsFullString (get f runtime)) non_empty_string_optional_fields
            × (All (λ f. AbsentOr IsCount (get f runtime)) non_negative_integer_optional_fields
                × (All (λ f. AbsentOr IsBoolean (get f runtime)) boolean_optional_fields
                    × AbsentOr IsPluginList (get (lit "plugin_subdirs") runtime)))))
unfolding validate_optional
validate_optional_iff runtime =
    both_iff _ _ _ _
      (each-guard_iff _ (λ f. optional is_string (get f runtime)) not_string
        (λ f. optional_iff IsString is_string (get f runtime) (is_string_iff (get f runtime)))
        string_optional_fields)
      (both_iff _ _ _ _
        (each-guard_iff _ (λ f. optional is_full_string (get f runtime)) not_full_string
          (λ f.
            optional_iff IsFullString is_full_string (get f runtime)
              (is_full_string_iff (get f runtime)))
          non_empty_string_optional_fields)
        (both_iff _ _ _ _
          (each-guard_iff _ (λ f. optional is_count (get f runtime)) not_count
            (λ f. optional_iff IsCount is_count (get f runtime) (is_count_iff (get f runtime)))
            non_negative_integer_optional_fields)
          (both_iff _ _ _ _
            (each-guard_iff _ (λ f. optional is_boolean (get f runtime)) not_boolean
              (λ f.
                optional_iff IsBoolean is_boolean (get f runtime) (is_boolean_iff (get f runtime)))
              boolean_optional_fields)
            (plugins_iff (get (lit "plugin_subdirs") runtime)))))

-- The validation accepts a runtime table exactly when every required field is there at its type, no
-- field is unknown, and each optional field that is there is of its type: texts, texts that are not
-- blank, counts, Booleans, and a list of texts that are not blank.
pub validate_runtime_iff :
    (runtime : Value) → (validate_runtime runtime ≡ ok tt) ↔ IsRuntime runtime
unfolding validate_runtime
validate_runtime_iff runtime =
    let (to, from) = both_iff _ _ _ _ (validate_presence_iff runtime) (
      both_iff _ _ _ _ (retries_iff (get (lit "empty_output_retries") runtime))
        (validate_optional_iff runtime)) in
    (
      λ h. record {
        texts = (to h).0.0;
        print_logs = (to h).0.1.0;
        known = (to h).0.1.1;
        retries = (to h).1.0;
        optional_texts = (to h).1.1.0;
        full_texts = (to h).1.1.1.0;
        counts = (to h).1.1.1.1.0;
        booleans = (to h).1.1.1.1.1.0;
        plugins = (to h).1.1.1.1.1.1;
      },
      λ r. from (
        (r.texts, (r.print_logs, r.known)),
        (r.retries, (r.optional_texts, (r.full_texts, (r.counts, (r.booleans, r.plugins))))),
      ),
    )
