-- ===== src/Js.antt =====
-- Values of the dynamic language, as JSON.parse and the TOML and YAML readers return them.
-- An object is the list of its own enumerable properties in enumeration order; properties that
-- come from `Object.prototype`, and the key `__proto__`, are left out. Numbers are the integers,
-- NaN, and the rest under an index each.
pub mod Laws
use promptfoo_eval_harness.Prelude.{
  ℕ, zero, suc, ◌+◌, ◌/◌, ◌%◌, ◌≡◌, refl, Bool, true, false, List, [], ◌∷◌, ◌++◌, Str, str_eq, ltb,
  if◌then◌else◌, is_empty, ◌==◌, not,
}

-- `negsuc n` is -(n + 1).
pub data ℤ : Type 0 where
  pos : ℕ → ℤ
  negsuc : ℕ → ℤ

pub data Number : Type 0 where
  integer : ℤ → Number
  nan : Number
  inexact : ℕ → Number

mutual
  pub data Fields : Type 0 where
    field : Str → Value → Fields → Fields
    end : Fields

  pub data Value : Type 0 where
    obj : Fields → Value
    arr : Items → Value
    str : Str → Value
    num : Number → Value
    bool : Bool → Value
    null undefined : Value

  pub data Items : Type 0 where
    cons : Value → Items → Items
    nil : Items

abbrev pub items : Items → List Value
items nil = []
items (cons v vs) = v ∷ items vs

abbrev pub to_items : List Value → Items
to_items [] = nil
to_items (v ∷ vs) = cons v (to_items vs)

abbrev pub fields : Fields → List (Str × Value)
fields end = []
fields (field k v fs) = (k, v) ∷ fields fs

abbrev pub to_fields : List (Str × Value) → Fields
to_fields [] = end
to_fields ((k, v) ∷ ps) = field k v (to_fields ps)

-- An object literal.
abbrev pub object : List (Str × Value) → Value
object ps = obj (to_fields ps)

abbrev pub array : List Value → Value
array vs = arr (to_items vs)

unfoldable pub lookup : Str → List (Str × Value) → Value
lookup key [] = undefined
lookup key ((k, v) ∷ ps) = if str_eq k key then v else lookup key ps

-- `Object.prototype.hasOwnProperty.call(o, key)` on the properties of `o`.
unfoldable pub has : Str → List (Str × Value) → Bool
has key [] = false
has key ((k, v) ∷ ps) = if str_eq k key then true else has key ps

-- `o[key] = v`: in place if the key is there, at the end if not.
unfoldable pub put : Str → Value → List (Str × Value) → List (Str × Value)
put key v [] = (key, v) ∷ []
put key v ((k, w) ∷ ps) = if str_eq k key then (k, v) ∷ ps else (k, w) ∷ put key v ps

-- `{ ...base, ...over }`
unfoldable pub spread : List (Str × Value) → List (Str × Value) → List (Str × Value)
unfolding put
spread base [] = base
spread base ((k, v) ∷ over) = spread (put k v base) over

-- `{ [key]: _, ...rest } = o`
unfoldable pub omit : Str → List (Str × Value) → List (Str × Value)
omit key [] = []
omit key ((k, v) ∷ ps) = if str_eq k key then omit key ps else (k, v) ∷ omit key ps

-- The decimal digits that a template literal prints for a number.
digits_from : ℕ → ℕ → Str
digits_from zero n = []
digits_from (suc f) n =
    let more = digits_from f (n / 10) in (if ltb n 10 then [] else more) ++ (48 + n % 10) ∷ []

unfoldable pub decimal : ℕ → Str
unfolding digits_from
decimal n = digits_from (suc n) n

abbrev pub index_entries : ℕ → List Value → List (Str × Value)
index_entries i [] = []
index_entries i (v ∷ vs) = (decimal i, v) ∷ index_entries (suc i) vs

-- The own properties: what `Object.entries` lists of an object or an array.
unfoldable pub entries : Value → List (Str × Value)
entries (obj fs) = fields fs
entries (arr vs) = index_entries 0 (items vs)
entries _ = []

-- `v.key`, where `v` is not null or undefined and `key` is no index and not `length`.
unfoldable pub get : Str → Value → Value
unfolding lookup
get key (obj fs) = lookup key (fields fs)
get key _ = undefined

abbrev pub is_nonzero : ℤ → Bool
is_nonzero (pos n) = not (n == 0)
is_nonzero (negsuc n) = true

unfoldable pub truthy : Value → Bool
truthy undefined = false
truthy null = false
truthy (bool b) = b
truthy (num (integer i)) = is_nonzero i
truthy (num nan) = false
truthy (num (inexact n)) = true
truthy (str s) = not (is_empty s)
truthy (arr vs) = true
truthy (obj fs) = true

-- `a || b`
abbrev pub or_else : Value → Value → Value
or_else a b = if truthy a then a else b

-- `v && typeof v === 'object'`
unfoldable pub is_object : Value → Bool
is_object (arr vs) = true
is_object (obj fs) = true
is_object _ = false

-- `Array.isArray(v)`
unfoldable pub is_array : Value → Bool
is_array (arr vs) = true
is_array _ = false

-- `isPlainObject`, and `v && typeof v === 'object' && !Array.isArray(v)`
unfoldable pub is_plain : Value → Bool
is_plain (obj fs) = true
is_plain _ = false

unfoldable pub is_string : Value → Bool
is_string (str s) = true
is_string _ = false

unfoldable pub is_boolean : Value → Bool
is_boolean (bool b) = true
is_boolean _ = false

unfoldable pub is_number : Value → Bool
is_number (num n) = true
is_number _ = false

unfoldable pub is_undefined : Value → Bool
is_undefined undefined = true
is_undefined _ = false

-- The elements of an array, none of anything else.
abbrev pub elements : Value → List Value
elements (arr vs) = items vs
elements _ = []

-- The text of a string, empty for anything else: used where the code has tested for a string.
abbrev pub text : Value → Str
text (str s) = s
text _ = []
