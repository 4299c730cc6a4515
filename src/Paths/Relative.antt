-- ===== src/Paths/Relative.antt =====
-- `path.relative`, `path.dirname` and `path.join` on absolute POSIX paths.
pub mod Inverse
use mathlib.Core.List.{reverse}
use promptfoo_eval_harness.Prelude.{
  Bool, true, false, List, [], ◌∷◌, ◌++◌, Str, lit, str_eq, is_empty, ends_with, if◌then◌else◌,
}
use promptfoo_eval_harness.Paths.{split_slash, resolve_from, render_root}

-- The parts of an absolute path, the last one first.
unfoldable pub parts_of : Str → List Str
parts_of path = resolve_from [] (split_slash path)

unfoldable pub join_slash : List Str → Str
join_slash [] = []
join_slash (part ∷ []) = part
join_slash (part ∷ next ∷ parts) = part ++ (47 ∷ join_slash (next ∷ parts))

-- `..` for each part.
unfoldable pub climb : List Str → List Str → List Str
climb [] parts = parts
climb (part ∷ above) parts = lit ".." ∷ climb above parts

-- From the parts of one directory to those of another, both with the first part first.
unfoldable pub relative_parts : List Str → List Str → List Str
relative_parts (a ∷ from) (b ∷ to) =
    let below = relative_parts from to in if str_eq a b then below else climb (a ∷ from) (b ∷ to)
relative_parts from to = climb from to

unfoldable pub relative : Str → Str → Str
relative from to = join_slash (relative_parts (reverse (parts_of from)) (reverse (parts_of to)))

abbrev drop_last : List Str → List Str
drop_last [] = []
drop_last (part ∷ above) = above

unfoldable pub dirname : Str → Str
dirname path = render_root (drop_last (parts_of path))

-- `path.join(root, path)`
unfoldable pub join_below : Str → Str → Str
join_below root path =
    let body = render_root (resolve_from (parts_of root) (split_slash path)) in
    if ends_with path (lit "/")
    then if str_eq body (lit "/") then body else body ++ lit "/"
    else body
