-- ===== src/Paths/Within.antt =====
-- A path that passes the guard lies under the root and climbs nowhere.
use promptfoo_eval_harness.Prelude.{
  ℕ, ◌≡◌, refl, ◌⊎◌, inl, inr, Bool, true, false, not, List, [], ◌∷◌, ◌++◌, arith, Str, lit, str_eq,
  str_eq_iff, is_empty, ◌==◌, starts_with, all, All, ok, Bool-cases,
}
use promptfoo_eval_harness.Paths.{
  read_char, split_slash, enter, resolve_from, render_root, resolve_parts, resolve, resolve_root,
  is_within, resolve_within_root,
}

abbrev pub no_slash : Str → Bool
no_slash = all (λ c. not (c == 47))

-- A part that names a file or a directory below the one before it.
abbrev pub IsPlain : Str → Type 0
IsPlain part =
    (is_empty part ≡ false)
    × (str_eq part (lit ".") ≡ false)
    × (str_eq part (lit "..") ≡ false)
    × (no_slash part ≡ true)

read_char-no_slash :
    (c : ℕ) (parts : List Str)
    → All (λ part. no_slash part ≡ true) parts
    → All (λ part. no_slash part ≡ true) (read_char c parts)
unfolding read_char
read_char-no_slash c [] h = ground arith
read_char-no_slash c (part ∷ parts) h = ground arith

pub split_slash-no_slash : (s : Str) → All (λ part. no_slash part ≡ true) (split_slash s)
unfolding split_slash
split_slash-no_slash [] = (refl, tt)
split_slash-no_slash (c ∷ s) = read_char-no_slash c _ (split_slash-no_slash s)

enter-IsPlain :
    (resolved : List Str) (part : Str)
    → All IsPlain resolved
    → no_slash part ≡ true
    → All IsPlain (enter resolved part)
enter-IsPlain resolved part h k = ground arith

pub resolve_from-IsPlain :
    (resolved parts : List Str)
    → All IsPlain resolved
    → All (λ part. no_slash part ≡ true) parts
    → All IsPlain (resolve_from resolved parts)
unfolding resolve_from
resolve_from-IsPlain resolved [] h k = h
resolve_from-IsPlain resolved (part ∷ parts) h (k, ks) =
    resolve_from-IsPlain (enter resolved part) parts (enter-IsPlain resolved part h k) ks

pub resolve_parts-IsPlain : (root path : Str) → All IsPlain (resolve_parts root path)
unfolding resolve_parts
resolve_parts-IsPlain root path = ground (
  arith,
  resolve_from-IsPlain [] (split_slash path) tt (split_slash-no_slash path),
  resolve_from-IsPlain (resolve_from [] (split_slash root)) (split_slash path)
      (resolve_from-IsPlain [] (split_slash root) tt (split_slash-no_slash root))
      (split_slash-no_slash path),
)

starts_with-append : (s p : Str) → starts_with s p ≡ true → (rest : Str) × (s ≡ p ++ rest)
unfolding starts_with
starts_with-append s [] h = (s, refl)
starts_with-append [] (c ∷ p) h = cc
starts_with-append (a ∷ s) (c ∷ p) h =
    let (rest, e) = starts_with-append s p (ground arith) in (rest, ground arith)

-- What the guard lets through is the allowed root itself or a path below it, written with plain
-- parts alone: none is empty, `.` or `..`, and none holds a slash.
pub resolve_within_root-IsPlain {ℓ} :
    {E : Type ℓ} (root path allowed : Str) (refusal : E) (p : Str)
    → resolve_within_root root path allowed refusal ≡ ok p
    → ((parts : List Str) × All IsPlain parts × (p ≡ render_root parts))
      × ((p ≡ resolve_root allowed)
          ⊎ ((rest : Str) × (p ≡ (resolve_root allowed ++ 47 ∷ []) ++ rest)))
unfolding resolve_within_root
resolve_within_root-IsPlain root path allowed refusal p h =
    let resolved : p ≡ resolve root path = ground arith in
    let passed : is_within (resolve root path) (resolve_root allowed) ≡ true = ground arith in
    (
      (resolve_parts root path, resolve_parts-IsPlain root path, unfold resolve in resolved),
      rw resolved (elim (Bool-cases (str_eq (resolve root path) (resolve_root allowed))) [
        | inl same ↦ inl ((str_eq_iff _ _).0 same)
        | inr other ↦ inr (
            starts_with-append (resolve root path) (resolve_root allowed ++ 47 ∷ [])
              (rw other at passed))
      ]),
    )
