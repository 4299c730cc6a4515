-- ===== src/Guard/Snapshot.antt =====
-- `detectCleanupViolations` and its parts: which paths a run dirtied, from the lists of dirty paths
-- and their hashes before it and after it.
pub mod Violations
use promptfoo_eval_harness.Prelude.{
  Bool, true, false, not, ◌&&◌, Option, none, some, List, [], ◌∷◌, ◌++◌, Str, lit, str_eq,
  if◌then◌else◌, any, keep, includes, starts_with, sort,
}

-- A `Set` of paths is a list of distinct paths; a `Map` from a path to its hash a list of pairs.
abbrev pub Hashes : Type 0
Hashes = List (Str × Str)

pub record Snapshot : Type 0 where
  pub tracked : List Str
  pub untracked : List Str
  pub tracked_hashes : Option Hashes
  pub untracked_hashes : Option Hashes

abbrev pub allowed_artifact_prefixes : List Str
allowed_artifact_prefixes =
    lit "tests/evals/.cache/"
    ∷ lit "tests/evals/.tmp/"
    ∷ lit "tests/evals/output/"
    ∷ lit "tests/evals/results/"
    ∷ []

unfoldable pub is_allowed_artifact_path : Str → Bool
is_allowed_artifact_path path = any (starts_with path) allowed_artifact_prefixes

unfoldable pub collect_new_paths : List Str → List Str → List Str
collect_new_paths before after = keep (λ path. not (includes before path)) after

-- `map.get(path)`
unfoldable pub hash_of : Hashes → Str → Option Str
hash_of [] path = none
hash_of ((p, h) ∷ hashes) path = if str_eq p path then some h else hash_of hashes path

-- `===` of two results of `get`
abbrev pub same_hash : Option Str → Option Str → Bool
same_hash none none = true
same_hash (some a) (some b) = str_eq a b
same_hash _ _ = false

unfoldable pub collect_changed_preexisting_paths :
    List Str → List Str → Option Hashes → Option Hashes → List Str
collect_changed_preexisting_paths before after (some old) (some new) =
    keep (λ path. includes before path && not (same_hash (hash_of old path) (hash_of new path)))
      after
collect_changed_preexisting_paths before after _ _ = []

unfoldable pub detect_cleanup_violations : Snapshot → Snapshot → List Str
detect_cleanup_violations before after = sort (
    keep (λ path. not (is_allowed_artifact_path path))
      (collect_new_paths before.tracked after.tracked
        ++ (collect_new_paths before.untracked after.untracked
            ++ (collect_changed_preexisting_paths before.tracked after.tracked before.tracked_hashes
                  after.tracked_hashes
                ++ collect_changed_preexisting_paths before.untracked after.untracked
                    before.untracked_hashes after.untracked_hashes))))
