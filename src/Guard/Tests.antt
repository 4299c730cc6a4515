-- ===== src/Guard/Tests.antt =====
-- Runs of the guard's operations, and the theorems at concrete inputs.
use promptfoo_eval_harness.Prelude.{
  ◌≤◌, ◌≡◌, ◌⊎◌, refl, ◌↔◌, Str, lit, false, not, ◌&&◌, ◌||◌, List, [], ◌∷◌, some, none, str_eq,
  length, is_empty, All, Result, ok, includes, ◌>>=◌, IsSorted,
}
use promptfoo_eval_harness.Guard.Snapshot.{
  Snapshot, is_allowed_artifact_path, detect_cleanup_violations,
}
use promptfoo_eval_harness.Guard.Snapshot.Violations.{touched, detect_cleanup_violations_iff}
use promptfoo_eval_harness.Guard.Argv.{
  Error, split_from, split_promptfoo_invocations, invocation, materialize_invocation,
}
use promptfoo_eval_harness.Guard.Argv.Laws.{
  IsSingle, IsSource, split_promptfoo_invocations-IsSingle, materialize_invocation-invocation,
}
use promptfoo_eval_harness.Guard.Run.{
  Setting, Round, exited, no_directory, main, restore_cleanup_violations, fresh_violations,
}
use promptfoo_eval_harness.Guard.Run.Exit.{AllClean, main-zero_iff}
use promptfoo_eval_harness.Guard.Run.Restores.{RestoresSafely, restore_cleanup_violations_safe}

abbrev before : Snapshot
before = record {
  tracked = lit "README.md" ∷ [];
  untracked = [];
  tracked_hashes = some ((lit "README.md", lit "a1") ∷ []);
  untracked_hashes = none;
}

abbrev after : Snapshot
after = record {
  tracked = lit "README.md" ∷ [];
  untracked = lit "notes.txt" ∷ lit "tests/evals/output/x.json" ∷ [];
  tracked_hashes = some ((lit "README.md", lit "b2") ∷ []);
  untracked_hashes = none;
}

detect_cleanup_violations_iff_example :
    (includes (detect_cleanup_violations before after) (lit "notes.txt") ≡ (
      (touched before.tracked after.tracked before.tracked_hashes after.tracked_hashes
          (lit "notes.txt")
        || touched before.untracked after.untracked before.untracked_hashes after.untracked_hashes
            (lit "notes.txt"))
      && not (is_allowed_artifact_path (lit "notes.txt"))))
    × IsSorted (detect_cleanup_violations before after)
detect_cleanup_violations_iff_example = detect_cleanup_violations_iff before after (lit "notes.txt")

abbrev setting : Setting
setting = record { keep_workspace = none; run_id = lit "run1"; repo_root = lit "/repo" }

abbrev dirty_round : Round
dirty_round = record {
  before = before;
  spawned = exited 0;
  after = after;
  git_tracked = lit "README.md" ∷ [];
  listing = no_directory;
}

abbrev clean_round : Round
clean_round = record dirty_round { after = before; spawned = exited 100 }

abbrev one_run : List (List Str)
one_run = (lit "eval" ∷ []) ∷ []

main-zero_iff_example :
    (main setting (λ n. clean_round) one_run ≡ ok 0) ↔ AllClean setting (λ n. clean_round) 0 one_run
main-zero_iff_example = main-zero_iff setting (λ n. clean_round) one_run

restore_cleanup_violations_safe_example : RestoresSafely dirty_round (lit "/repo") (
    restore_cleanup_violations (lit "/repo") dirty_round.git_tracked (fresh_violations dirty_round))
restore_cleanup_violations_safe_example = restore_cleanup_violations_safe dirty_round (lit "/repo")

abbrev argv : List Str
argv = lit "eval" ∷ lit "-c" ∷ lit "a.yaml" ∷ lit "-c" ∷ lit "b.yaml" ∷ []

abbrev two_runs : List (List Str)
two_runs =
    (lit "eval" ∷ lit "-c" ∷ lit "a.yaml" ∷ []) ∷ (lit "eval" ∷ lit "-c" ∷ lit "b.yaml" ∷ []) ∷ []

splits_in_two : split_promptfoo_invocations argv ≡ ok two_runs
unfolding split_promptfoo_invocations split_from str_eq lit
splits_in_two = refl

split_promptfoo_invocations-IsSingle_example : All IsSingle two_runs × (1 ≤ length two_runs)
split_promptfoo_invocations-IsSingle_example =
    split_promptfoo_invocations-IsSingle argv two_runs splits_in_two

abbrev write : Str → Result Error Str
write path = ok (lit ".tmp/resolved-configs/1.json")

is_shared : str_eq (lit "eval") (lit "-c") ≡ false
unfolding str_eq lit
is_shared = refl

is_config : is_empty (lit "a.yaml") ≡ false
unfolding lit
is_config = refl

materialize_invocation-invocation_example :
    (IsSource (lit "a.yaml")
      × (materialize_invocation write (invocation (lit "eval" ∷ []) (lit "a.yaml"))
          ≡ (write (lit "a.yaml") >>= λ path. ok (invocation (lit "eval" ∷ []) path))))
    ⊎ ((¬ IsSource (lit "a.yaml"))
        × (materialize_invocation write (invocation (lit "eval" ∷ []) (lit "a.yaml"))
            ≡ ok (invocation (lit "eval" ∷ []) (lit "a.yaml"))))
materialize_invocation-invocation_example =
    materialize_invocation-invocation write (lit "eval" ∷ []) (lit "a.yaml") (is_shared, tt)
      is_config
