-- ===== src/Guard/Snapshot/Violations.antt =====
-- Exactly which paths are reported.
use promptfoo_eval_harness.Prelude.{
  ◌≡◌, Bool, false, not, ◌&&◌, ◌||◌, Option, some, List, arith, Str, includes, includes-append,
  includes-keep, includes-sort, includes-nil, sort-IsSorted, IsSorted,
}
use promptfoo_eval_harness.Guard.Snapshot.{
  Snapshot, Hashes, is_allowed_artifact_path, collect_new_paths, hash_of, same_hash,
  collect_changed_preexisting_paths, detect_cleanup_violations,
}

-- Whether both snapshots were hashed and give the path different hashes.
abbrev pub hash_differs : Option Hashes → Option Hashes → Str → Bool
hash_differs (some old) (some new) path = not (same_hash (hash_of old path) (hash_of new path))
hash_differs _ _ path = false

-- Whether one list of dirty paths shows that the run touched a path: it is dirty afterwards, and
-- it was clean before or has another hash.
abbrev pub touched : List Str → List Str → Option Hashes → Option Hashes → Str → Bool
touched before after old new path =
    includes after path && (not (includes before path) || hash_differs old new path)

new_or_changed :
    (before after : List Str) (old new : Option Hashes) (path : Str)
    → (includes (collect_new_paths before after) path
        || includes (collect_changed_preexisting_paths before after old new) path)
      ≡ touched before after old new path
unfolding collect_new_paths collect_changed_preexisting_paths
new_or_changed before after (some old) (some new) path = simp includes-keep (ground arith)
new_or_changed before after _ _ path = simp includes-keep (ground (arith, includes-nil path))

-- A path is reported exactly when it lies under no artifact directory and the tracked or the
-- untracked list shows that the run touched it; the report is in ascending order.
pub detect_cleanup_violations_iff :
    (before after : Snapshot) (path : Str)
    → (includes (detect_cleanup_violations before after) path ≡ (
        (touched before.tracked after.tracked before.tracked_hashes after.tracked_hashes path
          || touched before.untracked after.untracked before.untracked_hashes after.untracked_hashes
              path)
        && not (is_allowed_artifact_path path)))
      × IsSorted (detect_cleanup_violations before after)
unfolding detect_cleanup_violations
detect_cleanup_violations_iff before after path = (
  simp (includes-sort, includes-keep, includes-append)
      (ground (
        arith,
        new_or_changed before.tracked after.tracked before.tracked_hashes after.tracked_hashes path,
        new_or_changed before.untracked after.untracked before.untracked_hashes
            after.untracked_hashes path,
      )),
  sort-IsSorted _,
)
