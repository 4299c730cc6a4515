-- ===== src/Cli/Packages/Found.antt =====
-- The files that discovery is to find, told by their names, and the lists of their paths.
use mathlib.Core.List.{reverse, reverse_aux}
use promptfoo_eval_harness.Prelude.{
  ◌≡◌, refl, ap, ◌∙◌, sym, ◌↔◌, ◌⊎◌, inl, inr, true, false, List, [], ◌∷◌, ◌++◌, arith,
  append_assoc, append-nil, Str, lit, str_eq, str_eq_iff, str_eq_refl, starts_with, ends_with,
  includes, includes-append, Bool-cases, Result, ok,
}
use promptfoo_eval_harness.Paths.{resolve_from}
use promptfoo_eval_harness.Paths.Within.{no_slash, IsPlain}
use promptfoo_eval_harness.Paths.Relative.{
  parts_of, join_slash, relative_parts, relative, join_below, climb,
}
use promptfoo_eval_harness.Paths.Relative.Inverse.{
  split_slash-part, parts_of-IsPlain, parts_of-render_root,
}
use promptfoo_eval_harness.Cli.Packages.{
  Directory, unreadable, listing, Entries, file, other, directory, end, is_promptfoo_config_file,
}

reverse-above :
    (above root ys : List Str)
    → reverse_aux (reverse_aux above root) ys ≡ reverse_aux root (above ++ ys)
reverse-above [] root ys = refl
reverse-above (a ∷ above) root ys = reverse-above above (a ∷ root) ys

relative_parts-root :
    (root xs ys : List Str)
    → relative_parts (reverse_aux root xs) (reverse_aux root ys) ≡ relative_parts xs ys
unfolding relative_parts
relative_parts-root [] xs ys = refl
relative_parts-root (r ∷ root) xs ys =
    relative_parts-root root (r ∷ xs) (r ∷ ys) ∙ rw (str_eq_refl r) refl

-- What lies below a directory is named by the parts from there.
pub relative-below :
    (root path : Str) (above : List Str)
    → parts_of path ≡ reverse_aux above (parts_of root)
    → relative root path ≡ join_slash above
unfolding relative
relative-below root path above e =
    ap (λ ps. join_slash (relative_parts (reverse (parts_of root)) (reverse ps))) e
    ∙ ap (λ ps. join_slash (relative_parts (reverse (parts_of root)) ps))
        (reverse-above above (parts_of root) [])
    ∙ ap join_slash (
        relative_parts-root (parts_of root) [] (above ++ [])
        ∙ unfold relative_parts climb in append-nil above)

no_slash-reverse_aux :
    (xs ys : Str) → no_slash xs ≡ true → no_slash ys ≡ true → no_slash (reverse_aux xs ys) ≡ true
no_slash-reverse_aux [] ys h k = k
no_slash-reverse_aux (x ∷ xs) ys h k =
    no_slash-reverse_aux xs (x ∷ ys) (ground arith) (ground arith)

no_slash-starts : (s : Str) → no_slash s ≡ true → starts_with s (47 ∷ []) ≡ false
unfolding starts_with
no_slash-starts [] h = refl
no_slash-starts (c ∷ s) h = ground arith

ends_in_no_slash : (s : Str) → no_slash s ≡ true → ends_with s (lit "/") ≡ false
unfolding ends_with lit
ends_in_no_slash s h = no_slash-starts (reverse s) (no_slash-reverse_aux s [] h refl)

pub parts_of-join_below :
    (current name : Str)
    → IsPlain name
    → parts_of (join_below current name) ≡ name ∷ parts_of current
unfolding join_below resolve_from
parts_of-join_below current name (e, d, dd, n) =
    rw (ends_in_no_slash name n, split_slash-part name n, e, d, dd)
      (parts_of-render_root (name ∷ parts_of current) ((e, d, dd, n), parts_of-IsPlain current))

-- Every directory can be read, and its entries have names that a file system gives.
unfoldable mutual
  pub IsTree : Directory → Type 0
  IsTree (unreadable message) = ⊥
  IsTree (listing entries) = AreEntries entries

  pub AreEntries : Entries → Type 0
  AreEntries end = Unit
  AreEntries (file name entries) = IsPlain name × AreEntries entries
  AreEntries (other name entries) = AreEntries entries
  AreEntries (directory name inner entries) = IsPlain name × IsTree inner × AreEntries entries

-- The names lead down to a file that is a configuration.
unfoldable mutual
  pub IsConfigIn : Directory → List Str → Type 0
  IsConfigIn (unreadable message) names = ⊥
  IsConfigIn (listing entries) names = IsConfigAmong entries names

  pub IsConfigAmong : Entries → List Str → Type 0
  IsConfigAmong end names = ⊥
  IsConfigAmong (file name entries) names =
      ((is_promptfoo_config_file name ≡ true) × (names ≡ name ∷ [])) ⊎ IsConfigAmong entries names
  IsConfigAmong (other name entries) names = IsConfigAmong entries names
  IsConfigAmong (directory name inner entries) names =
      ((below : List Str) × IsConfigIn inner below × (names ≡ name ∷ below))
      ⊎ IsConfigAmong entries names

-- The paths are those of the names that are found, behind the names above.
abbrev pub Lists : List Str → (List Str → Type 0) → List Str → Type 0
Lists above Holds paths =
    (path : Str)
    → (includes paths path ≡ true)
      ↔ ((names : List Str) × Holds names × (path ≡ join_slash (above ++ names)))

-- A walk that returns such a list.
abbrev pub Walks : Result Str (List Str) → List Str → (List Str → Type 0) → Type 0
Walks walk above Holds = (paths : List Str) × (walk ≡ ok paths) × Lists above Holds paths

pub none-Walks : (above : List Str) → Walks (ok []) above (λ names. ⊥)
unfolding includes
none-Walks above = ([], refl, λ path. (λ h. cc, λ (names, h, e). elim h [ ]))

module _ (above : List Str) (Holds : List Str → Type 0) (name : Str) where
  pub file-Lists :
      (paths : List Str) (path : Str)
      → path ≡ join_slash (above ++ name ∷ [])
      → is_promptfoo_config_file name ≡ true
      → Lists above Holds paths
      → Lists above
          (λ names. ((is_promptfoo_config_file name ≡ true) × (names ≡ name ∷ [])) ⊎ Holds names)
          (path ∷ paths)
  unfolding includes
  file-Lists paths path here config ls p = (
    λ h. elim (Bool-cases (str_eq path p)) [
      | inl same ↦ (name ∷ [], inl (config, refl), sym ((str_eq_iff path p).0 same) ∙ here)
      | inr differs ↦ let (names, held, e) = (ls p).0 (rw differs at h) in (names, inr held, e)
    ],
    λ (names, found, e). elim found [
      | inl (c, single) ↦
          rw ((str_eq_iff path p).1 (here ∙ sym (e ∙ ap (λ ns. join_slash (above ++ ns)) single)))
            refl
      | inr held ↦
          let rest : includes paths p ≡ true = (ls p).1 (names, held, e) in ground (arith, rest)
    ],
  )

  pub skip-Lists :
      (paths : List Str)
      → is_promptfoo_config_file name ≡ false
      → Lists above Holds paths
      → Lists above
          (λ names. ((is_promptfoo_config_file name ≡ true) × (names ≡ name ∷ [])) ⊎ Holds names)
          paths
  skip-Lists paths plain ls p = (
    λ h. let (names, held, e) = (ls p).0 h in (names, inr held, e),
    λ (names, found, e). elim found [ inl (c, single) ↦ cc | inr held ↦ (ls p).1 (names, held, e) ],
  )

  pub below-Lists :
      (Below : List Str → Type 0) (inner paths : List Str)
      → Lists (above ++ name ∷ []) Below inner
      → Lists above Holds paths
      → Lists above
          (λ names. ((below : List Str) × Below below × (names ≡ name ∷ below)) ⊎ Holds names)
          (inner ++ paths)
  below-Lists Below inner paths ks ls p = (
    λ h. elim (Bool-cases (includes inner p)) [
      | inl within ↦
          let (below, held, e) = (ks p).0 within in
          (
            name ∷ below,
            inl (below, held, refl),
            e ∙ ap join_slash (append_assoc above (name ∷ []) below),
          )
      | inr without ↦
          let rest : includes paths p ≡ true = ground (arith, includes-append inner paths p) in
          let (names, held, e) = (ls p).0 rest in (names, inr held, e)
    ],
    λ (names, found, e). includes-append inner paths p ∙ elim found [
      | inl (below, held, same) ↦
          let within : includes inner p ≡ true = (ks p).1 (
            below,
            held,
            e
                ∙ ap (λ ns. join_slash (above ++ ns)) same
                ∙ sym (ap join_slash (append_assoc above (name ∷ []) below)),
          ) in
          ground (arith, within)
      | inr held ↦
          let rest : includes paths p ≡ true = (ls p).1 (names, held, e) in ground (arith, rest)
    ],
  )
