-- ===== src/Prelude/Text.antt =====
-- Strings as lists of UTF-16 code units, with the operations of `String.prototype` that the
-- program calls: `===`, `startsWith`, `endsWith`, `trim`, `slice`, `toLowerCase` on ASCII letters,
-- and the order that `Array.prototype.sort` uses.
use Prim.Native.Nat.{ℕ, ◌+◌}
use Prim.Native.Char.{code}
use Prim.Native.String.{String}
use mathlib.Core.Path.{◌≡◌, refl, ap}
use mathlib.Core.Bool.{Bool, true, false, ◌&&◌, ◌||◌}
use mathlib.Core.Logic.{◌↔◌, inl, inr}
use mathlib.Core.List.{List, [], ◌∷◌, ◌++◌, map, reverse}
use native.Mathlib.Omega.{arith}
use promptfoo_eval_harness.Prelude.Tests.{ltb, leb, ◌==◌, if◌then◌else◌, Bool-cases}
use promptfoo_eval_harness.Prelude.Lists.{any, any-append, keep}

abbrev pub Str : Type 0
Str = List ℕ

-- A literal of the source. No literal there leaves the basic plane.
unfoldable pub lit : String → Str
lit String.[] = []
lit (String.◌∷◌ c s) = code c ∷ lit s

unfoldable pub str_eq : Str → Str → Bool
str_eq [] [] = true
str_eq (a ∷ s) (b ∷ t) = a == b && str_eq s t
str_eq _ _ = false

pub str_eq_iff : (s t : Str) → (str_eq s t ≡ true) ↔ (s ≡ t)
unfolding str_eq
str_eq_iff [] [] = ground arith
str_eq_iff (a ∷ s) (b ∷ t) = ground (arith, str_eq_iff s t)
str_eq_iff [] (b ∷ t) = ground arith
str_eq_iff (a ∷ s) [] = ground arith

pub str_eq_refl : (s : Str) → str_eq s s ≡ true
str_eq_refl s = (str_eq_iff s s).1 refl

abbrev pub is_empty : Str → Bool
is_empty [] = true
is_empty (a ∷ s) = false

-- White space and line terminators of ECMAScript: what `trim` removes and `\s` matches.
unfoldable pub is_space : ℕ → Bool
is_space c =
    leb 9 c && leb c 13
    || c == 32
    || c == 160
    || c == 5760
    || leb 8192 c && leb c 8202
    || c == 8232
    || c == 8233
    || c == 8239
    || c == 8287
    || c == 12288
    || c == 65279

unfoldable pub trim_start : Str → Str
unfolding is_space
trim_start [] = []
trim_start (c ∷ s) = let rest = trim_start s in if is_space c then rest else c ∷ s

unfoldable pub trim : Str → Str
unfolding trim_start
trim s = reverse (trim_start (reverse (trim_start s)))

-- `s.trim() === ''`
abbrev pub is_blank : Str → Bool
is_blank s = is_empty (trim s)

unfoldable pub starts_with : Str → Str → Bool
starts_with s [] = true
starts_with [] (p ∷ ps) = false
starts_with (c ∷ s) (p ∷ ps) = c == p && starts_with s ps

unfoldable pub ends_with : Str → Str → Bool
unfolding starts_with
ends_with s t = starts_with (reverse s) (reverse t)

unfoldable pub to_lower : Str → Str
to_lower s = map (λ c. if leb 65 c && leb c 90 then c + 32 else c) s

-- `<` on strings: by code units, a proper prefix first.
unfoldable pub str_leb : Str → Str → Bool
str_leb [] t = true
str_leb (a ∷ s) [] = false
str_leb (a ∷ s) (b ∷ t) = ltb a b || a == b && str_leb s t

-- `xs.includes(s)`, `set.has(s)`
unfoldable pub includes : List Str → Str → Bool
includes xs s = any (λ x. str_eq x s) xs

pub includes-append :
    (xs ys : List Str) (s : Str) → includes (xs ++ ys) s ≡ (includes xs s || includes ys s)
unfolding includes
includes-append xs ys s = any-append (λ x. str_eq x s) xs ys

pub includes-keep :
    (p : Str → Bool) (xs : List Str) (s : Str) → includes (keep p xs) s ≡ (includes xs s && p s)
unfolding includes
includes-keep p [] s = refl
includes-keep p (x ∷ xs) s = elim (Bool-cases (str_eq x s)) [
  | inl e ↦ let same = ap p ((str_eq_iff x s).0 e) in rw same (ground (arith, includes-keep p xs s))
  | inr e ↦ ground (arith, includes-keep p xs s)
]

pub includes-nil : (s : Str) → includes [] s ≡ false
unfolding includes
includes-nil s = refl
