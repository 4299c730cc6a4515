-- ===== src/Paths.antt =====
-- Path arithmetic: what the program uses of Node's `path` on POSIX, and the guard against paths
-- that leave a root, which scripts/framework/eval-tier-config.js and
-- scripts/framework/resolve-promptfoo-config.js both declare and
-- scripts/framework/run-promptfoo-with-guard.js has inline.
pub mod Within
pub mod Relative
mod Tests
use promptfoo_eval_harness.Prelude.{
  ℕ, Bool, true, false, not, ◌&&◌, ◌||◌, List, [], ◌∷◌, ◌++◌, Str, lit, str_eq, is_empty, ◌==◌,
  starts_with, ends_with, if◌then◌else◌, Result, ok, err,
}

-- One more character before the parts read so far.
unfoldable pub read_char : ℕ → List Str → List Str
read_char c [] = if c == 47 then [] ∷ [] ∷ [] else (c ∷ []) ∷ []
read_char c (part ∷ parts) = if c == 47 then [] ∷ part ∷ parts else (c ∷ part) ∷ parts

-- The parts between the slashes.
unfoldable pub split_slash : Str → List Str
unfolding read_char
split_slash [] = [] ∷ []
split_slash (c ∷ s) = read_char c (split_slash s)

abbrev pub is_absolute : Str → Bool
is_absolute [] = false
is_absolute (c ∷ s) = c == 47

-- One part of a path that is being resolved; the last part resolved so far stands first.
abbrev pub enter : List Str → Str → List Str
enter resolved part =
    if is_empty part || str_eq part (lit ".")
    then resolved
    else if str_eq part (lit "..")
    then elim resolved [ [] ↦ [] | last ∷ above ↦ above ]
    else part ∷ resolved

unfoldable pub resolve_from : List Str → List Str → List Str
resolve_from resolved [] = resolved
resolve_from resolved (part ∷ parts) = resolve_from (enter resolved part) parts

-- The text of an absolute path, from its parts with the last one first.
unfoldable pub render : List Str → Str
render [] = []
render (part ∷ parts) = render parts ++ (47 ∷ part)

abbrev pub render_root : List Str → Str
render_root [] = lit "/"
render_root (part ∷ parts) = render (part ∷ parts)

-- The parts of `path.resolve(root, path)`, for an absolute root.
unfoldable pub resolve_parts : Str → Str → List Str
unfolding resolve_from split_slash
resolve_parts root path =
    resolve_from (if is_absolute path then [] else resolve_from [] (split_slash root))
      (split_slash path)

unfoldable pub resolve : Str → Str → Str
unfolding resolve_parts render
resolve root path = render_root (resolve_parts root path)

-- `path.resolve(root)`, for an absolute root
abbrev pub resolve_root : Str → Str
resolve_root root = resolve root []

-- `candidatePath === normalizedRoot || candidatePath.startsWith(normalizedRoot + path.sep)`
abbrev pub is_within : Str → Str → Bool
is_within candidate root = str_eq candidate root || starts_with candidate (root ++ 47 ∷ [])

module _ {ℓ} {E : Type ℓ} where
  unfoldable pub ensure_within_root : Str → Str → E → Result E (Unit {0})
  ensure_within_root candidate root refusal =
      if is_within candidate (resolve_root root) then ok tt else err refusal

  unfoldable pub resolve_within_root : Str → Str → Str → E → Result E Str
  unfolding ensure_within_root
  resolve_within_root root path allowed_root refusal =
      let resolved = resolve root path in
      if is_within resolved (resolve_root allowed_root) then ok resolved else err refusal

-- One part of a path that need not be absolute.
abbrev enter_relative : List Str → Str → List Str
enter_relative resolved part =
    if is_empty part || str_eq part (lit ".")
    then resolved
    else if str_eq part (lit "..")
    then elim resolved [
      | [] ↦ part ∷ []
      | last ∷ above ↦ if str_eq last (lit "..") then part ∷ last ∷ above else above
    ]
    else part ∷ resolved

unfoldable pub normalize_from : List Str → List Str → List Str
normalize_from resolved [] = resolved
normalize_from resolved (part ∷ parts) = normalize_from (enter_relative resolved part) parts

-- The parts with the last one first, joined by slashes.
unfoldable pub join_parts : List Str → Str
join_parts [] = []
join_parts (part ∷ []) = part
join_parts (part ∷ above ∷ rest) = join_parts (above ∷ rest) ++ (47 ∷ part)

abbrev ends_in_slash : Str → Bool
ends_in_slash s = ends_with s (lit "/")

-- `path.normalize` of a relative path
unfoldable pub normalize_relative : Str → Str
unfolding normalize_from join_parts
normalize_relative s =
    let body = join_parts (normalize_from [] (split_slash s)) in
    if is_empty body
    then if ends_in_slash s then lit "./" else lit "."
    else if ends_in_slash s
    then body ++ lit "/"
    else body

abbrev join_text : List Str → Str
join_text [] = []
join_text (s ∷ rest) =
    let more = join_text rest in
    if is_empty s then more else if is_empty more then s else s ++ (47 ∷ more)

-- `path.join` of relative parts
unfoldable pub join : List Str → Str
unfolding normalize_relative
join parts = let s = join_text parts in if is_empty s then lit "." else normalize_relative s
