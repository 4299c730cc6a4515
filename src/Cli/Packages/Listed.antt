-- ===== src/Cli/Packages/Listed.antt =====
-- The walk of discovery against that description.
use mathlib.Core.List.{reverse_aux}
use promptfoo_eval_harness.Prelude.{
  ◌≡◌, refl, ap, ◌∙◌, sym, inl, inr, List, [], ◌∷◌, ◌++◌, some, Str, lit, str_eq, sort, IsSorted,
  sort-IsSorted, includes-sort, Bool-cases, ok,
}
use promptfoo_eval_harness.Paths.Within.{IsPlain}
use promptfoo_eval_harness.Paths.Relative.{parts_of, join_below}
use promptfoo_eval_harness.Cli.Packages.{
  Directory, unreadable, listing, Entries, file, other, directory, end, is_promptfoo_config_file,
  walk_configs, walk_entries, discover_package_configs,
}
use promptfoo_eval_harness.Cli.Packages.Found.{
  relative-below, parts_of-join_below, IsTree, AreEntries, IsConfigIn, IsConfigAmong, Lists, Walks,
  none-Walks, file-Lists, skip-Lists, below-Lists,
}

-- The directory that stands below the root by the names above.
abbrev IsAt : Str → List Str → Str → Type 0
IsAt root above current = parts_of current ≡ reverse_aux above (parts_of root)

reverse_aux-last :
    (above root : List Str) (name : Str)
    → reverse_aux (above ++ name ∷ []) root ≡ name ∷ reverse_aux above root
reverse_aux-last [] root name = refl
reverse_aux-last (a ∷ above) root name = reverse_aux-last above (a ∷ root) name

join_below-IsAt :
    (root current name : Str) (above : List Str)
    → IsPlain name
    → IsAt root above current
    → IsAt root (above ++ name ∷ []) (join_below current name)
join_below-IsAt root current name above plain at =
    parts_of-join_below current name plain
    ∙ ap (λ ps. name ∷ ps) at
    ∙ sym (reverse_aux-last above (parts_of root) name)

module _ (root : Str) where
  mutual
    unfolding walk_configs IsTree IsConfigIn

    walk_configs-Walks :
        (current : Str) (above : List Str) (d : Directory)
        → IsAt root above current
        → IsTree d
        → Walks (walk_configs root current d) above (IsConfigIn d)
    walk_configs-Walks current above (unreadable message) at t = elim t [ ]
    walk_configs-Walks current above (listing entries) at t =
        walk_entries-Walks current above entries at t

    walk_entries-Walks :
        (current : Str) (above : List Str) (entries : Entries)
        → IsAt root above current
        → AreEntries entries
        → Walks (walk_entries root current entries) above (IsConfigAmong entries)
    walk_entries-Walks current above end at t = none-Walks above
    walk_entries-Walks current above (other name entries) at t =
        walk_entries-Walks current above entries at t
    walk_entries-Walks current above (file name entries) at (plain, t) =
        let (paths, e, ls) = walk_entries-Walks current above entries at t in
        elim (Bool-cases (is_promptfoo_config_file name)) [
          | inl config ↦ (
            _,
            rw (e, config) refl,
            file-Lists above (IsConfigAmong entries) name paths _
                (relative-below root (join_below current name) (above ++ name ∷ [])
                  (join_below-IsAt root current name above plain at))
                config ls,
          )
          | inr skipped ↦ (
            paths,
            rw (e, skipped) refl,
            skip-Lists above (IsConfigAmong entries) name paths skipped ls,
          )
        ]
    walk_entries-Walks current above (directory name inner entries) at (plain, s, t) =
        let (within, f, ks) =
          walk_configs-Walks (join_below current name) (above ++ name ∷ []) inner
            (join_below-IsAt root current name above plain at) s in
        let (paths, e, ls) = walk_entries-Walks current above entries at t in
        (
          within ++ paths,
          rw (f, e) refl,
          below-Lists above (IsConfigAmong entries) name (IsConfigIn inner) within paths ks ls,
        )

packages-IsPlain : IsPlain (lit "packages")
unfolding lit str_eq
packages-IsPlain = (refl, refl, refl, refl)

-- Where every directory below `packages` can be read, discovery returns a sorted list, and a path
-- is in it exactly when it is `packages` and then the names, one below another and a slash between
-- each two, that lead to a configuration file.
pub discover_package_configs-Lists :
    (root : Str) (packages : Directory)
    → IsTree packages
    → (paths : List Str) × (discover_package_configs root (some packages) ≡ ok paths)
      × IsSorted paths
      × Lists (lit "packages" ∷ []) (IsConfigIn packages) paths
unfolding discover_package_configs
discover_package_configs-Lists root packages t =
    let (paths, e, ls) =
      walk_configs-Walks root (join_below root (lit "packages")) (lit "packages" ∷ []) packages
        (parts_of-join_below root (lit "packages") packages-IsPlain) t in
    (
      sort paths,
      rw e refl,
      sort-IsSorted paths,
      λ p. (
        λ h. (ls p).0 (sym (includes-sort paths p) ∙ h),
        λ found. includes-sort paths p ∙ (ls p).1 found,
      ),
    )
