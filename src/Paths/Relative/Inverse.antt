-- ===== src/Paths/Relative/Inverse.antt =====
-- A relative path leads back to where it was taken to.
use mathlib.Core.List.{reverse, reverse_aux, reverse-reverse}
use promptfoo_eval_harness.Prelude.{
  ◌≡◌, refl, ap, ◌∙◌, sym, true, false, List, [], ◌∷◌, ◌++◌, arith, Str, lit, str_eq, str_eq_iff,
  is_empty, ◌==◌, All, Bool-cases, inl, inr,
}
use promptfoo_eval_harness.Paths.{
  read_char, split_slash, is_absolute, enter, resolve_from, render_root, resolve_parts, resolve,
  render,
}
use promptfoo_eval_harness.Paths.Within.{
  no_slash, IsPlain, resolve_from-IsPlain, split_slash-no_slash, resolve_parts-IsPlain,
}
use promptfoo_eval_harness.Paths.Relative.{parts_of, join_slash, climb, relative_parts, relative}

-- A part that a relative path may have.
abbrev IsStep : Str → Type 0
IsStep part = (is_empty part ≡ false) × (no_slash part ≡ true)

split_slash-cons : (s : Str) → (p : Str) × (ps : List Str) × (split_slash s ≡ p ∷ ps)
unfolding split_slash read_char
split_slash-cons [] = ([], [], refl)
split_slash-cons (c ∷ s) =
    let (p, ps, e) = split_slash-cons s in
    elim (Bool-cases (c == 47)) [
      | inl slash ↦ rw (e, slash) ([], p ∷ ps, refl)
      | inr other ↦ rw (e, other) (c ∷ p, ps, refl)
    ]

split_slash-append :
    (part : Str) (s : Str)
    → no_slash part ≡ true
    → split_slash (part ++ (47 ∷ s)) ≡ part ∷ split_slash s
unfolding split_slash read_char
split_slash-append [] s h = let (p, ps, e) = split_slash-cons s in rw (e, read_char) refl
split_slash-append (c ∷ part) s h = ground (arith, split_slash-append part s)

pub split_slash-part : (part : Str) → no_slash part ≡ true → split_slash part ≡ part ∷ []
unfolding split_slash read_char
split_slash-part [] h = refl
split_slash-part (c ∷ part) h = ground (arith, split_slash-part part)

split_slash-join_slash :
    (part : Str) (parts : List Str)
    → All IsStep (part ∷ parts)
    → split_slash (join_slash (part ∷ parts)) ≡ part ∷ parts
unfolding join_slash
split_slash-join_slash part [] ((e, h), hs) = split_slash-part part h
split_slash-join_slash part (next ∷ parts) ((e, h), hs) =
    split_slash-append part (join_slash (next ∷ parts)) h
    ∙ ap (λ ps. part ∷ ps) (split_slash-join_slash next parts hs)

resolve_from-plain :
    (base to : List Str) → All IsPlain to → resolve_from base to ≡ reverse_aux to base
unfolding resolve_from
resolve_from-plain base [] h = refl
resolve_from-plain base (part ∷ to) ((e, d, dd, n), hs) =
    rw (e, d, dd) (resolve_from-plain (part ∷ base) to hs)

climb-above : (from to : List Str) → climb from (lit ".." ∷ to) ≡ lit ".." ∷ climb from to
unfolding climb
climb-above [] to = refl
climb-above (part ∷ from) to = ap (λ ps. lit ".." ∷ ps) (climb-above from to)

enter_above : (part : Str) (base : List Str) → enter (part ∷ base) (lit "..") ≡ base
unfolding str_eq lit
enter_above part base = refl

-- As many steps up as there are parts lead back.
resolve_from-climb :
    (base from to : List Str)
    → resolve_from (reverse_aux from base) (climb from to) ≡ resolve_from base to
unfolding climb
resolve_from-climb base [] to = refl
resolve_from-climb base (part ∷ from) to =
    ap (resolve_from (reverse_aux from (part ∷ base))) (sym (climb-above from to))
    ∙ resolve_from-climb (part ∷ base) from (lit ".." ∷ to)
    ∙ unfold resolve_from in ap (λ b. resolve_from b to) (enter_above part base)

resolve_from-relative_parts :
    (base from to : List Str)
    → All IsPlain to
    → resolve_from (reverse_aux from base) (relative_parts from to) ≡ reverse_aux to base
unfolding relative_parts
resolve_from-relative_parts base [] to h =
    resolve_from-climb base [] to ∙ resolve_from-plain base to h
resolve_from-relative_parts base (a ∷ from) [] h =
    resolve_from-climb base (a ∷ from) [] ∙ resolve_from-plain base [] h
resolve_from-relative_parts base (a ∷ from) (b ∷ to) h = elim (Bool-cases (str_eq a b)) [
  | inl same ↦
      let e : a ≡ b = (str_eq_iff a b).0 same in
      rw same
        (resolve_from-relative_parts (a ∷ base) from to h.1 ∙ ap (λ p. reverse_aux to (p ∷ base)) e)
  | inr other ↦
      rw other (resolve_from-climb base (a ∷ from) (b ∷ to) ∙ resolve_from-plain base (b ∷ to) h)
]

climb-IsStep : (from to : List Str) → All IsPlain to → All IsStep (climb from to)
unfolding climb lit
climb-IsStep [] [] h = tt
climb-IsStep [] (b ∷ to) ((e, d, dd, n), hs) = ((e, n), climb-IsStep [] to hs)
climb-IsStep (a ∷ from) to h = ((refl, refl), climb-IsStep from to h)

relative_parts-IsStep : (from to : List Str) → All IsPlain to → All IsStep (relative_parts from to)
unfolding relative_parts
relative_parts-IsStep [] to h = climb-IsStep [] to h
relative_parts-IsStep (a ∷ from) [] h = climb-IsStep (a ∷ from) [] h
relative_parts-IsStep (a ∷ from) (b ∷ to) h = elim (Bool-cases (str_eq a b)) [
  | inl same ↦ rw same (relative_parts-IsStep from to h.1)
  | inr other ↦ rw other (climb-IsStep (a ∷ from) (b ∷ to) h)
]

join_slash-relative : (parts : List Str) → All IsStep parts → is_absolute (join_slash parts) ≡ false
unfolding join_slash
join_slash-relative [] h = refl
join_slash-relative ([] ∷ []) ((e, n), hs) = cc
join_slash-relative ((c ∷ part) ∷ []) ((e, n), hs) = ground arith
join_slash-relative ([] ∷ next ∷ parts) ((e, n), hs) = cc
join_slash-relative ((c ∷ part) ∷ next ∷ parts) ((e, n), hs) = ground arith

-- The text of steps is read back as those steps.
resolve_from-join_slash :
    (base parts : List Str)
    → All IsStep parts
    → resolve_from base (split_slash (join_slash parts)) ≡ resolve_from base parts
unfolding resolve_from
resolve_from-join_slash base [] h = unfold split_slash join_slash in refl
resolve_from-join_slash base (part ∷ parts) h =
    ap (resolve_from base) (split_slash-join_slash part parts h)

pub parts_of-IsPlain : (path : Str) → All IsPlain (parts_of path)
unfolding parts_of
parts_of-IsPlain path = resolve_from-IsPlain [] (split_slash path) tt (split_slash-no_slash path)

All-reverse_aux :
    (xs ys : List Str) → All IsPlain xs → All IsPlain ys → All IsPlain (reverse_aux xs ys)
All-reverse_aux [] ys h k = k
All-reverse_aux (x ∷ xs) ys (h, hs) k = All-reverse_aux xs (x ∷ ys) hs (h, k)

-- The relative path from one directory to a file, resolved against the directory, is the file.
pub resolve-relative : (from to : Str) → resolve from (relative from to) ≡ render_root (parts_of to)
unfolding resolve resolve_parts relative parts_of
resolve-relative from to =
    let plain : All IsPlain (reverse (parts_of to)) =
      All-reverse_aux (parts_of to) [] (parts_of-IsPlain to) tt in
    let steps : All IsStep (relative_parts (reverse (parts_of from)) (reverse (parts_of to))) =
      relative_parts-IsStep (reverse (parts_of from)) (reverse (parts_of to)) plain in
    rw
      (join_slash-relative (relative_parts (reverse (parts_of from)) (reverse (parts_of to))) steps)
      (ap render_root (
        resolve_from-join_slash (parts_of from)
          (relative_parts (reverse (parts_of from)) (reverse (parts_of to))) steps
        ∙ ap
            (λ b. resolve_from b (relative_parts (reverse (parts_of from)) (reverse (parts_of to))))
            (sym (reverse-reverse (parts_of from)))
        ∙ resolve_from-relative_parts [] (reverse (parts_of from)) (reverse (parts_of to)) plain
        ∙ reverse-reverse (parts_of to)))

split_slash-concat :
    (s part : Str)
    → no_slash part ≡ true
    → split_slash (s ++ (47 ∷ part)) ≡ split_slash s ++ part ∷ []
unfolding split_slash read_char
split_slash-concat [] part h = rw (split_slash-part part h, read_char) refl
split_slash-concat (c ∷ s) part h =
    let (p, ps, e) = split_slash-cons s in
    ap (read_char c) (split_slash-concat s part h) ∙ rw e (ground arith)

resolve_from-append :
    (base xs ys : List Str) → resolve_from base (xs ++ ys) ≡ resolve_from (resolve_from base xs) ys
unfolding resolve_from
resolve_from-append base [] ys = refl
resolve_from-append base (x ∷ xs) ys = resolve_from-append (enter base x) xs ys

parts_of-render : (parts : List Str) → All IsPlain parts → parts_of (render parts) ≡ parts
unfolding render parts_of
parts_of-render [] h = unfold split_slash resolve_from str_eq lit in refl
parts_of-render (part ∷ parts) ((e, d, dd, n), hs) =
    ap (resolve_from []) (split_slash-concat (render parts) part n)
    ∙ resolve_from-append [] (split_slash (render parts)) (part ∷ [])
    ∙ ap (λ b. resolve_from b (part ∷ [])) (parts_of-render parts hs)
    ∙ unfold resolve_from in rw (e, d, dd) refl

-- The text of an absolute path is read back as its parts.
pub parts_of-render_root :
    (parts : List Str) → All IsPlain parts → parts_of (render_root parts) ≡ parts
parts_of-render_root [] h = unfold parts_of split_slash read_char resolve_from str_eq lit in refl
parts_of-render_root (part ∷ parts) h = parts_of-render (part ∷ parts) h

-- A path that is resolved already stays as it is.
pub resolve-relative-resolve :
    (from root path : Str) → resolve from (relative from (resolve root path)) ≡ resolve root path
resolve-relative-resolve from root path =
    resolve-relative from (resolve root path)
    ∙ unfold resolve in
      ap render_root
        (parts_of-render_root (resolve_parts root path) (resolve_parts-IsPlain root path))
