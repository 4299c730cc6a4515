-- ===== src/Bridge/Runtime.antt =====
-- scripts/framework/secret_redactor.js, and what the bridge takes from the JavaScript runtime.
pub mod Redaction
use promptfoo_eval_harness.Prelude.{Option, List, [], ◌∷◌, Str}
use promptfoo_eval_harness.Js.{
  Value, undefined, null, bool, num, str, arr, obj, Items, nil, cons, Fields, end, field,
}

-- `json_parse` is `JSON.parse`, with `none` for a throw; `to_text` is `String`; `null_read` is the
-- TypeError of reading a property of null or undefined. `patterns` are the replacements that
-- config/redaction-patterns.json compiles to, in order.
pub record Runtime : Type 0 where
  pub json_parse : Str → Option Value
  pub to_text : Value → Str
  pub null_read : Value
  pub patterns : List (Str → Str)

-- `_redactString`
unfoldable pub redact_string : List (Str → Str) → Str → Str
redact_string [] s = s
redact_string (replace ∷ patterns) s = redact_string patterns (replace s)

module _ (patterns : List (Str → Str)) where
  unfoldable mutual
    pub redact : Value → Value
    redact undefined = undefined
    redact null = null
    redact (bool b) = bool b
    redact (num n) = num n
    redact (str s) = str (redact_string patterns s)
    redact (arr vs) = arr (redact_items vs)
    redact (obj fs) = obj (redact_fields fs)

    pub redact_items : Items → Items
    redact_items nil = nil
    redact_items (cons v vs) = cons (redact v) (redact_items vs)

    pub redact_fields : Fields → Fields
    redact_fields end = end
    redact_fields (field k v fs) = field k (redact v) (redact_fields fs)
