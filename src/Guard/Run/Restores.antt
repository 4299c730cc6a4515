-- ===== src/Guard/Run/Restores.antt =====
-- What a failing run may lose: only files that the run itself made or changed.
use promptfoo_eval_harness.Prelude.{
  ◌≡◌, Bool, true, false, not, ◌||◌, some, List, [], ◌∷◌, ◌++◌, arith, Str, includes, keep-All, All,
  All-keep, All-mono, All-append, Option-cases, inl, inr,
}
use promptfoo_eval_harness.Paths.{resolve, is_within}
use promptfoo_eval_harness.Guard.Run.{
  Round, Restoration, resolve_repo_path, remove_from, restore_cleanup_violations, fresh_violations,
}

-- The path was clean when the run began.
abbrev pub WasClean : Round → Str → Type 0
WasClean r path =
    (includes r.before.tracked path ≡ false) × (includes r.before.untracked path ≡ false)

fresh_violations-WasClean : (r : Round) → All (WasClean r) (fresh_violations r)
unfolding fresh_violations
fresh_violations-WasClean r =
    All-mono (λ p. fresh p ≡ true) (WasClean r) (λ p h. ground arith) _ (keep-All fresh _)
  where
    fresh : Str → Bool
    fresh p = not (includes r.before.tracked p || includes r.before.untracked p)

-- The removed path is inside the repository, and is that of an untracked path of this kind.
abbrev pub RemovedFrom : Str → (Str → Type 0) → Str → Type 0
RemovedFrom repo_root P p =
    (path : Str) × P path × (p ≡ resolve repo_root path) × (is_within p repo_root ≡ true)

module _ (P : Str → Type 0) (repo_root : Str) where
  resolve_repo_path-RemovedFrom :
      (path p : Str)
      → P path
      → resolve_repo_path repo_root path ≡ some p
      → RemovedFrom repo_root P p
  unfolding resolve_repo_path
  resolve_repo_path-RemovedFrom path p h e = (path, h, ground arith, ground arith)

  remove_from-RemovedFrom :
      (tracked removed paths : List Str)
      → All (RemovedFrom repo_root P) removed
      → All P paths
      → All (RemovedFrom repo_root P) (remove_from repo_root tracked removed paths).removed
  unfolding remove_from
  remove_from-RemovedFrom tracked removed [] h k = h
  remove_from-RemovedFrom tracked removed (path ∷ paths) h (k, ks) =
      elim (Option-cases (resolve_repo_path repo_root path)) [
        | inl refused ↦ rw (refused, remove_from) h
        | inr (p, e) ↦
            rw (e, remove_from)
              (remove_from-RemovedFrom tracked (removed ++ p ∷ []) paths
                (All-append (RemovedFrom repo_root P) removed (p ∷ []) h
                  (resolve_repo_path-RemovedFrom path p k e, tt))
                ks)
      ]

  remove_from-checked_out :
      (Q : Str → Type 0) (tracked removed paths : List Str)
      → All Q tracked
      → All Q (remove_from repo_root tracked removed paths).checked_out
  unfolding remove_from
  remove_from-checked_out Q tracked removed [] h = h
  remove_from-checked_out Q tracked removed (path ∷ paths) h =
      elim (Option-cases (resolve_repo_path repo_root path)) [
        | inl refused ↦ rw (refused, remove_from) tt
        | inr (p, e) ↦ rw (e, remove_from) (remove_from-checked_out Q tracked _ paths h)
      ]

abbrev pub RestoresSafely : Round → Str → Restoration → Type 0
RestoresSafely r repo_root rest =
    All (RemovedFrom repo_root λ p. WasClean r p × (not (includes r.git_tracked p) ≡ true))
      rest.removed
    × All (λ p. WasClean r p × (includes r.git_tracked p ≡ true)) rest.checked_out

restores_at :
    (r : Round) (repo_root : Str) (paths : List Str)
    → All (WasClean r) paths
    → RestoresSafely r repo_root (restore_cleanup_violations repo_root r.git_tracked paths)
unfolding restore_cleanup_violations
restores_at r repo_root [] h = (tt, tt)
restores_at r repo_root (path ∷ paths) h = (
  remove_from-RemovedFrom (λ p. WasClean r p × (not (includes r.git_tracked p) ≡ true)) repo_root _
      [] _ tt (All-keep (WasClean r) (λ p. not (includes r.git_tracked p)) (path ∷ paths) h),
  remove_from-checked_out (WasClean r) repo_root
      (λ p. WasClean r p × (includes r.git_tracked p ≡ true)) _ [] _
      (All-keep (WasClean r) (includes r.git_tracked) (path ∷ paths) h),
)

-- The restoration after a failing run removes only paths inside the repository that git does not
-- track, checks out only paths that git tracks, and touches no path that was already dirty before
-- the run.
pub restore_cleanup_violations_safe :
    (r : Round) (repo_root : Str)
    → RestoresSafely r repo_root
        (restore_cleanup_violations repo_root r.git_tracked (fresh_violations r))
restore_cleanup_violations_safe r repo_root =
    restores_at r repo_root (fresh_violations r) (fresh_violations-WasClean r)
