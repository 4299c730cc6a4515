-- ===== src/Migration.antt =====
-- scripts/framework/migrate-from-v0.js: rewriting a tier configuration of the old version in place.
pub mod Accepted
pub mod Alike
pub mod Emitted
mod Tests
use promptfoo_eval_harness.Prelude.{
  ℕ, zero, suc, Bool, true, false, not, ◌&&◌, ◌||◌, List, [], ◌∷◌, ◌++◌, map, length, Str, lit,
  str_eq, is_empty, ◌==◌, any, if◌then◌else◌, Option, none, some, Result, ok, err, ◌>>=◌,
}
use promptfoo_eval_harness.Paths.{resolve}
use promptfoo_eval_harness.Paths.Relative.{parts_of, relative}
use promptfoo_eval_harness.Js.{
  Value, str, object, array, get, put, entries, or_else, truthy, is_object, is_string, text,
  decimal,
}
use promptfoo_eval_harness.TierConfig.Shape.{values, has_providers, has_agent}
use promptfoo_eval_harness.Resolve.Entries.{own}

-- What is thrown: with the path and the message of a reader or the writer, or with a tier's name.
pub data Error : Type 0 where
  not_read not_parsed : Str → Str → Error
  unknown_version : Str → Error
  missing_agent : Str → Error
  not_serialized : Str → Error

unfoldable pub is_v1 : Value → Bool
is_v1 raw =
    let version = get (lit "version") raw in
    let tiers = get (lit "tiers") raw in
    if is_string version && str_eq (text version) (lit "v1")
    then true
    else if not (is_object tiers)
    then false
    else any has_providers (values (entries tiers))

unfoldable pub is_v0 : Value → Bool
is_v0 raw =
    let tiers = get (lit "tiers") raw in
    if not (is_object tiers) then false else any has_agent (values (entries tiers))

-- The provider that a tier of the old version becomes.
abbrev pub migrated_provider : Value → Value → Value
migrated_provider agent runtime =
    let config = get (lit "opencode_config") runtime in
    object (
      (lit "provider_kind", str (lit "opencode_cli"))
      ∷ (lit "label", agent)
      ∷ (if truthy config then (lit "agent_config", config) ∷ [] else []))

-- The loop of `_buildV1`, with `tiers`.
unfoldable pub build_tiers :
    Value → List (Str × Value) → List (Str × Value) → Result Error (List (Str × Value))
build_tiers runtime done [] = ok done
build_tiers runtime done ((name, tier) ∷ tiers) =
    let agent = get (lit "agent") tier in
    let migrated = object ((lit "providers", array (migrated_provider agent runtime ∷ [])) ∷ []) in
    let rest = build_tiers runtime (put name migrated done) tiers in
    if is_string agent then rest else err (missing_agent name)

abbrev pub with_concurrency : Value → List (Str × Value)
with_concurrency concurrency =
    if is_object concurrency then (lit "concurrency", concurrency) ∷ [] else []

unfoldable pub build_v1 : Value → Result Error Value
unfolding build_tiers
build_v1 raw = do
  tiers ←
      build_tiers (get (lit "runtime") raw) [] (own (or_else (get (lit "tiers") raw) (object [])))
  ok (
      object (
        (lit "version", str (lit "v1"))
        ∷ (lit "tiers", object tiers)
        ∷ with_concurrency (get (lit "concurrency") raw)))

-- One more character before the lines read so far.
abbrev add_char : ℕ → List Str → List Str
add_char c [] = (c ∷ []) ∷ []
add_char c (line ∷ lines) = if c == 10 then [] ∷ line ∷ lines else (c ∷ line) ∷ lines

-- `s.split('\n')`
unfoldable pub split_lines : Str → List Str
split_lines [] = [] ∷ []
split_lines (c ∷ s) = add_char c (split_lines s)

-- `lines.join('\n')`
unfoldable pub join_lines : List Str → Str
join_lines [] = []
join_lines (line ∷ []) = line
join_lines (line ∷ next ∷ lines) = line ++ (10 ∷ join_lines (next ∷ lines))

unfoldable pub unified_diff : Str → Str → Str → Str
unfolding split_lines join_lines
unified_diff before after label =
    let old = split_lines before in
    let new = split_lines after in
    let hunk =
      lit "@@ -1,"
      ++ (decimal (length old) ++ (lit " +1," ++ (decimal (length new) ++ lit " @@"))) in
    if str_eq before after
    then []
    else join_lines (
        (lit "--- a/" ++ label)
        ∷ (lit "+++ b/" ++ label)
        ∷ hunk
        ∷ (map (λ line. 45 ∷ line) old ++ map (λ line. 43 ∷ line) new))

pub record Report : Type 0 where
  pub changed : Bool
  pub diff : Str
  pub warnings : List Str

-- What a migration does besides returning.
pub data Effect : Type 0 where
  printed : Str → Effect
  written : Str → Str → Effect

abbrev pub unchanged : Report
unchanged = record { changed = false; diff = []; warnings = lit "already-v1" ∷ [] }

abbrev basename : Str → Str
basename path = elim (parts_of path) [ [] ↦ [] | part ∷ above ↦ part ]

-- `read` is the file at a path, `parse` and `stringify` are the TOML reader and writer, each with the
-- message of what it throws; `cwd` is the working directory.
module _ (read : Str → Result Str Str) (parse : Str → Result Str Value)
    (stringify : Value → Result Str Str) (cwd : Str) where
  abbrev pub label_of : Str → Str
  label_of path = let below = relative cwd path in if is_empty below then basename path else below

  -- The diff is printed if there is one, and the file is written.
  unfoldable pub replace_source : Str → Str → Str → List Effect × Result Error Report
  replace_source path source new_source =
      let diff = unified_diff source new_source (label_of path) in
      (
        (if is_empty diff then [] else printed (diff ++ 10 ∷ []) ∷ [])
            ++ written path new_source ∷ [],
        ok (record { changed = true; diff = diff; warnings = [] }),
      )

  unfoldable pub serialize : Value → Result Error Str
  serialize v1 = elim (stringify v1) [ err message ↦ err (not_serialized message) | ok s ↦ ok s ]

  unfoldable pub write_back : Str → Str → Result Error Str → List Effect × Result Error Report
  write_back path source (err e) = ([], err e)
  write_back path source (ok new_source) = replace_source path source new_source

  unfoldable pub rewrite : Str → Str → Value → List Effect × Result Error Report
  unfolding serialize write_back
  rewrite path source raw =
      if is_v1 raw
      then ([], ok unchanged)
      else if is_v0 raw
      then write_back path source (build_v1 raw >>= serialize)
      else ([], err (unknown_version path))

  unfoldable pub parsed : Str → Str → Result Str Value → List Effect × Result Error Report
  unfolding rewrite
  parsed path source (err message) = ([], err (not_parsed path message))
  parsed path source (ok raw) = rewrite path source raw

  unfoldable pub loaded : Str → Result Str Str → List Effect × Result Error Report
  unfolding parsed
  loaded path (err message) = ([], err (not_read path message))
  loaded path (ok source) = parsed path source (parse source)

  unfoldable pub migrate : Str → List Effect × Result Error Report
  unfolding loaded
  migrate tier_config_path = let path = resolve cwd tier_config_path in loaded path (read path)

  -- The exit status of the command.
  unfoldable pub run_command : Option Str → List Effect × ℕ
  unfolding migrate
  run_command none = ([], 2)
  run_command (some path) =
      let (effects, result) = migrate path in
      if is_empty path then ([], 2) else (effects, elim result [ err e ↦ 1 | ok report ↦ 0 ])
