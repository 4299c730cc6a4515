-- ===== src/Guard/Run.antt =====
-- `main`: one Promptfoo run per invocation, each between two snapshots of the repository, with the
-- restoration of what it dirtied and the check that its workspaces are gone. What git, Promptfoo
-- and the file system answer in the n-th run is a `Round`.
pub mod Exit
pub mod Restores
use promptfoo_eval_harness.Prelude.{
  ℕ, zero, suc, ◌+◌, Bool, true, false, not, ◌&&◌, ◌||◌, Option, none, some, List, [], ◌∷◌, ◌++◌,
  Str, lit, str_eq, is_empty, ◌==◌, if◌then◌else◌, keep, includes, Result, ok, err,
}
use promptfoo_eval_harness.Paths.{resolve, is_within}
use promptfoo_eval_harness.Guard.Snapshot.{Snapshot, detect_cleanup_violations}

pub data Listing : Type 0 where
  entries : List Str → Listing
  no_directory unreadable : Listing

-- What `spawnSync` returns: an error, an exit status, a signal, or neither of the two.
pub data Spawned : Type 0 where
  failed : Str → Spawned
  exited : ℕ → Spawned
  killed : Str → Spawned
  unknown : Spawned

abbrev pub eval_result_failure_status : ℕ
eval_result_failure_status = 100

-- `runPromptfooInvocation`, from what its spawn returns
unfoldable pub run_promptfoo_invocation : Spawned → Result Str ℕ
run_promptfoo_invocation (failed error) = err error
run_promptfoo_invocation (exited status) = ok status
run_promptfoo_invocation (killed signal) = ok 1
run_promptfoo_invocation unknown = ok 1

-- The environment that `assertWorkspaceClean` reads.
pub record Setting : Type 0 where
  pub keep_workspace : Option Str
  pub run_id : Str
  pub repo_root : Str

abbrev pub keeps : Option Str → Bool
keeps none = false
keeps (some v) = str_eq v (lit "1") || str_eq v (lit "true")

abbrev workspace_status : Listing → ℕ
workspace_status (entries []) = 0
workspace_status (entries (name ∷ names)) = 1
workspace_status no_directory = 0
workspace_status unreadable = 1

unfoldable pub assert_workspace_clean : Setting → Listing → ℕ
assert_workspace_clean setting listing =
    if keeps setting.keep_workspace || is_empty setting.run_id then 0 else workspace_status listing

-- `none` is the throw on a path outside the repository.
unfoldable pub resolve_repo_path : Str → Str → Option Str
resolve_repo_path repo_root path =
    let resolved = resolve repo_root path in
    if is_within resolved repo_root then some resolved else none

-- What a restoration removed and checked out, and the path that it threw on.
pub record Restoration : Type 0 where
  pub removed : List Str
  pub checked_out : List Str
  pub refused : Option Str

abbrev pub nothing_restored : Restoration
nothing_restored = record { removed = []; checked_out = []; refused = none }

-- The loop that removes; on a refused path the check-out behind it does not happen.
unfoldable pub remove_from : Str → List Str → List Str → List Str → Restoration
remove_from repo_root tracked removed [] = record {
  removed = removed;
  checked_out = tracked;
  refused = none;
}
remove_from repo_root tracked removed (path ∷ paths) = elim (resolve_repo_path repo_root path) [
  | none ↦ record { removed = removed; checked_out = []; refused = some path }
  | some resolved ↦ remove_from repo_root tracked (removed ++ resolved ∷ []) paths
]

-- `git_tracked` is what `git ls-files` lists of the paths.
unfoldable pub restore_cleanup_violations : Str → List Str → List Str → Restoration
restore_cleanup_violations repo_root git_tracked [] = nothing_restored
restore_cleanup_violations repo_root git_tracked (path ∷ paths) =
    remove_from repo_root (keep (includes git_tracked) (path ∷ paths)) []
      (keep (λ p. not (includes git_tracked p)) (path ∷ paths))

pub record Round : Type 0 where
  pub before : Snapshot
  pub spawned : Spawned
  pub after : Snapshot
  pub git_tracked : List Str
  pub listing : Listing

-- The violations that the run itself made: `violations.filter((p) => !preexistingPaths.has(p))`.
unfoldable pub fresh_violations : Round → List Str
fresh_violations r =
    keep (λ p. not (includes r.before.tracked p || includes r.before.untracked p))
      (detect_cleanup_violations r.before r.after)

-- How a run ends the loop or lets it go on.
pub data Step : Type 0 where
  threw : Str → Step
  violated : List Str → Restoration → Step
  failing : ℕ → Step
  dirty : ℕ → Step
  passed : Step

abbrev pub is_passing : ℕ → Bool
is_passing status = status == 0 || status == eval_result_failure_status

module _ (setting : Setting) where
  unfoldable pub after_run : Round → ℕ → Step
  after_run r status = elim (detect_cleanup_violations r.before r.after) [
    | path ∷ paths ↦
        violated (path ∷ paths)
          (restore_cleanup_violations setting.repo_root r.git_tracked (fresh_violations r))
    | [] ↦
        if not (is_passing status)
        then failing status
        else let ws = assert_workspace_clean setting r.listing in
          if ws == 0 then passed else dirty ws
  ]

  unfoldable pub run_round : Round → Step
  run_round r = elim (run_promptfoo_invocation r.spawned) [
    | err error ↦ threw error
    | ok status ↦ after_run r status
  ]

  -- The exit status, or what was thrown: by the spawn, or by a restoration on the path given. A
  -- refused restoration throws before the report is printed.
  abbrev pub exit_violated : Restoration → Result Str ℕ
  exit_violated r = elim r.refused [ none ↦ ok 1 | some path ↦ err path ]

  -- The loop of `main` over the invocations left, with `finalStatus`; `world n` is the n-th run.
  unfoldable pub main_from : (ℕ → Round) → ℕ → ℕ → List (List Str) → Result Str ℕ
  main_from world n final [] = ok final
  main_from world n final (inv ∷ invs) = elim (run_round (world n)) [
    | threw error ↦ err error
    | violated paths restoration ↦ exit_violated restoration
    | failing status ↦ main_from world (suc n) (if final == 0 then status else final) invs
    | dirty ws ↦ ok ws
    | passed ↦ main_from world (suc n) final invs
  ]

  -- On the invocations that `splitPromptfooInvocations` gives.
  unfoldable pub main : (ℕ → Round) → List (List Str) → Result Str ℕ
  main world invs = main_from world 0 0 invs
