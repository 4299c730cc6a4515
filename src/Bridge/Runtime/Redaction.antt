-- ===== src/Bridge/Runtime/Redaction.antt =====
-- Redaction changes only texts, and changes every one of them.
use mathlib.Core.Path.{ap₂}
use promptfoo_eval_harness.Prelude.{
  ◌≡◌, refl, ap, ◌∙◌, sym, List, [], ◌∷◌, ◌++◌, map, map-append, Str,
}
use promptfoo_eval_harness.Js.{
  Value, undefined, null, bool, num, str, arr, obj, Items, nil, cons, Fields, end, field,
}
use promptfoo_eval_harness.Bridge.Runtime.{redact_string, redact, redact_items, redact_fields}

-- The texts of a value, in order; property names are no texts.
unfoldable mutual
  pub texts : Value → List Str
  texts (str s) = s ∷ []
  texts (arr vs) = texts_items vs
  texts (obj fs) = texts_fields fs
  texts _ = []

  pub texts_items : Items → List Str
  texts_items nil = []
  texts_items (cons v vs) = texts v ++ texts_items vs

  pub texts_fields : Fields → List Str
  texts_fields end = []
  texts_fields (field k v fs) = texts v ++ texts_fields fs

-- A value with its texts blanked: what is left is its shape, its keys and its other leaves.
mutual
  pub shape : Value → Value
  shape (str s) = str []
  shape (arr vs) = arr (shape_items vs)
  shape (obj fs) = obj (shape_fields fs)
  shape v = v

  shape_items : Items → Items
  shape_items nil = nil
  shape_items (cons v vs) = cons (shape v) (shape_items vs)

  shape_fields : Fields → Fields
  shape_fields end = end
  shape_fields (field k v fs) = field k (shape v) (shape_fields fs)

module _ (patterns : List (Str → Str)) where
  mutual
    unfolding redact texts

    texts-redact_value :
        (v : Value) → texts (redact patterns v) ≡ map (redact_string patterns) (texts v)
    texts-redact_value undefined = refl
    texts-redact_value null = refl
    texts-redact_value (bool b) = refl
    texts-redact_value (num n) = refl
    texts-redact_value (str s) = refl
    texts-redact_value (arr vs) = texts-redact_items vs
    texts-redact_value (obj fs) = texts-redact_fields fs

    texts-redact_items :
        (vs : Items)
        → texts_items (redact_items patterns vs) ≡ map (redact_string patterns) (texts_items vs)
    texts-redact_items nil = refl
    texts-redact_items (cons v vs) =
        ap₂ ◌++◌ (texts-redact_value v) (texts-redact_items vs)
        ∙ sym (map-append (redact_string patterns) (texts v) (texts_items vs))

    texts-redact_fields :
        (fs : Fields)
        → texts_fields (redact_fields patterns fs) ≡ map (redact_string patterns) (texts_fields fs)
    texts-redact_fields end = refl
    texts-redact_fields (field k v fs) =
        ap₂ ◌++◌ (texts-redact_value v) (texts-redact_fields fs)
        ∙ sym (map-append (redact_string patterns) (texts v) (texts_fields fs))

  mutual
    unfolding redact shape

    shape-redact : (v : Value) → shape (redact patterns v) ≡ shape v
    shape-redact undefined = refl
    shape-redact null = refl
    shape-redact (bool b) = refl
    shape-redact (num n) = refl
    shape-redact (str s) = refl
    shape-redact (arr vs) = ap arr (shape-redact_items vs)
    shape-redact (obj fs) = ap obj (shape-redact_fields fs)

    shape-redact_items : (vs : Items) → shape_items (redact_items patterns vs) ≡ shape_items vs
    shape-redact_items nil = refl
    shape-redact_items (cons v vs) = ap₂ cons (shape-redact v) (shape-redact_items vs)

    shape-redact_fields : (fs : Fields) → shape_fields (redact_fields patterns fs) ≡ shape_fields fs
    shape-redact_fields end = refl
    shape-redact_fields (field k v fs) = ap₂ (field k) (shape-redact v) (shape-redact_fields fs)

  -- Redacting a value replaces each text anywhere in it, in order, by what the patterns make of
  -- it, and leaves everything else as it was: the nesting, the property names and the other leaves.
  pub texts-redact :
      (v : Value)
      → (texts (redact patterns v) ≡ map (redact_string patterns) (texts v))
        × (shape (redact patterns v) ≡ shape v)
  texts-redact v = (texts-redact_value v, shape-redact v)
