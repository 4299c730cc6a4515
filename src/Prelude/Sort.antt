-- ===== src/Prelude/Sort.antt =====
-- `Array.prototype.sort` with no comparator, on strings: ascending by code units. Equal strings are
-- one value, so any sorting algorithm returns this list.

use mathlib.Core.Path.{◌≡◌, refl, ap, ◌∙◌}
use mathlib.Core.Logic.{inl, inr}
use mathlib.Core.Bool.{true, false, ◌||◌}
use mathlib.Core.List.{List, [], ◌∷◌}
use native.Mathlib.Omega.{arith}
use promptfoo_eval_harness.Prelude.Tests.{if◌then◌else◌, Bool-cases}
use promptfoo_eval_harness.Prelude.Text.{Str, str_eq, str_leb, includes}

insert : Str → List Str → List Str
insert s [] = s ∷ []
insert s (t ∷ ts) = if str_leb s t then s ∷ t ∷ ts else t ∷ insert s ts

unfoldable pub sort : List Str → List Str
unfolding insert str_leb
sort [] = []
sort (s ∷ ss) = insert s (sort ss)

-- Each entry is at most the next one.
abbrev pub IsSorted : List Str → Type 0
IsSorted [] = Unit
IsSorted (s ∷ []) = Unit
IsSorted (s ∷ t ∷ ts) = (str_leb s t ≡ true) × IsSorted (t ∷ ts)

str_leb_total : (s t : Str) → str_leb s t ≡ false → str_leb t s ≡ true
unfolding str_leb
str_leb_total [] t h = cc
str_leb_total (a ∷ s) [] h = refl
str_leb_total (a ∷ s) (b ∷ t) h = ground (arith, str_leb_total s t)

insert-IsSorted : (s : Str) (ts : List Str) → IsSorted ts → IsSorted (insert s ts)
unfolding insert
insert-IsSorted s [] h = tt
insert-IsSorted s (t ∷ []) h = ground (arith, str_leb_total s t)
insert-IsSorted s (t ∷ u ∷ ts) h = elim (Bool-cases (str_leb s t)) [
  | inl le ↦ rw le (le, h)
  | inr gt ↦ elim (Bool-cases (str_leb s u)) [
    | inl le ↦ rw (gt, le) (str_leb_total s t gt, (le, h.1))
    | inr above ↦
        let ih : IsSorted (u ∷ insert s ts) = rw above at (insert-IsSorted s (u ∷ ts) h.1) in
        rw (gt, above) (h.0, ih)
  ]
]

pub sort-IsSorted : (ss : List Str) → IsSorted (sort ss)
unfolding sort
sort-IsSorted [] = tt
sort-IsSorted (s ∷ ss) = insert-IsSorted s (sort ss) (sort-IsSorted ss)

includes-insert :
    (s p : Str) (ts : List Str) → includes (insert s ts) p ≡ (str_eq s p || includes ts p)
unfolding insert includes
includes-insert s p [] = refl
includes-insert s p (t ∷ ts) = ground (arith, includes-insert s p ts)

includes-cons :
    (s : Str) (ss : List Str) (p : Str) → (str_eq s p || includes ss p) ≡ includes (s ∷ ss) p
unfolding includes
includes-cons s ss p = refl

pub includes-sort : (ss : List Str) (p : Str) → includes (sort ss) p ≡ includes ss p
unfolding sort
includes-sort [] p = refl
includes-sort (s ∷ ss) p =
    includes-insert s p (sort ss)
    ∙ ap (λ b. str_eq s p || b) (includes-sort ss p)
    ∙ includes-cons s ss p
