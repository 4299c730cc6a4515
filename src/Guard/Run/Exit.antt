-- ===== src/Guard/Run/Exit.antt =====
-- When the guard exits with status 0, and what it restores.
use promptfoo_eval_harness.Prelude.{
  ℕ, suc, ◌≡◌, refl, ◌↔◌, ◌⊎◌, ◌≢◌, true, false, ◌==◌, List, [], ◌∷◌, arith, Str, is_empty, ok,
}
use promptfoo_eval_harness.Guard.Snapshot.{detect_cleanup_violations}
use promptfoo_eval_harness.Guard.Run.{
  Listing, entries, no_directory, exited, Setting, keeps, Round, Step, threw, violated, failing,
  dirty, passed, assert_workspace_clean, run_promptfoo_invocation, after_run, run_round, main_from,
  main,
}

module _ (setting : Setting) where
  -- No leftover is known: workspaces are kept on purpose, the run has no id, or its directory is
  -- missing or empty.
  abbrev pub NoLeftovers : Listing → Type 0
  NoLeftovers listing =
      (keeps setting.keep_workspace ≡ true)
      ⊎ ((is_empty setting.run_id ≡ true) ⊎ ((listing ≡ no_directory) ⊎ (listing ≡ entries [])))

  -- A run that Promptfoo ends with 0 or with failed evaluations, that dirtied nothing outside the
  -- artifact directories, and that left no workspace that counts.
  abbrev pub IsClean : Round → Type 0
  IsClean r =
      ((r.spawned ≡ exited 0) ⊎ (r.spawned ≡ exited 100))
      × (detect_cleanup_violations r.before r.after ≡ [])
      × NoLeftovers r.listing

  assert_iff :
      (listing : Listing) → (assert_workspace_clean setting listing ≡ 0) ↔ NoLeftovers listing
  unfolding assert_workspace_clean
  assert_iff (entries []) = ground arith
  assert_iff (entries (x ∷ xs)) = ground arith
  assert_iff listing = ground arith

  run_round_passed_iff : (r : Round) → (run_round setting r ≡ passed) ↔ IsClean r
  unfolding run_round after_run run_promptfoo_invocation
  run_round_passed_iff r = ground (arith, assert_iff r.listing)

  -- Every run of the world from the n-th on, as many as there are invocations, is clean.
  abbrev pub AllClean : (ℕ → Round) → ℕ → List (List Str) → Type 0
  AllClean world n [] = Unit
  AllClean world n (inv ∷ invs) = IsClean (world n) × AllClean world (suc n) invs

  -- A status that ends the loop or is kept is no 0.
  abbrev IsProper : Step → Type 0
  IsProper (failing status) = status ≢ 0
  IsProper (dirty ws) = ws ≢ 0
  IsProper _ = Unit

  run_round-IsProper : (r : Round) → IsProper (run_round setting r)
  unfolding run_round after_run
  run_round-IsProper r = ground arith

  ne_at :
      (world : ℕ → Round) (n final : ℕ) (inv : List Str) (invs : List (List Str)) (st : Step)
      → run_round setting (world n) ≡ st
      → IsProper st
      → final ≢ 0
      → main_from setting world (suc n) final invs ≢ ok 0
      → main_from setting world n final (inv ∷ invs) ≢ ok 0
  unfolding main_from
  ne_at world n final inv invs (threw error) e p h later = rw (e, main_from) (ground arith)
  ne_at world n final inv invs (violated paths rest) e p h later = rw (e, main_from) (ground arith)
  ne_at world n final inv invs (failing status) e p h later =
      let kept : (final == 0) ≡ false = ground arith in rw (e, main_from) (rw kept later)
  ne_at world n final inv invs (dirty ws) e p h later = rw (e, main_from) (ground arith)
  ne_at world n final inv invs passed e p h later = rw (e, main_from) later

  -- Once a status is kept, the loop cannot end with 0.
  main_from-ne-zero :
      (world : ℕ → Round) (n final : ℕ) (invs : List (List Str))
      → final ≢ 0
      → main_from setting world n final invs ≢ ok 0
  unfolding main_from
  main_from-ne-zero world n final [] h = ground arith
  main_from-ne-zero world n final (inv ∷ invs) h =
      ne_at world n final inv invs _ refl (run_round-IsProper (world n)) h
        (main_from-ne-zero world (suc n) final invs h)

  zero_at :
      (world : ℕ → Round) (n : ℕ) (inv : List Str) (invs : List (List Str)) (st : Step)
      → run_round setting (world n) ≡ st
      → IsProper st
      → (main_from setting world n 0 (inv ∷ invs) ≡ ok 0)
        ↔ ((st ≡ passed) × (main_from setting world (suc n) 0 invs ≡ ok 0))
  unfolding main_from
  zero_at world n inv invs (threw error) e p = rw (e, main_from) (ground arith)
  zero_at world n inv invs (violated paths rest) e p = rw (e, main_from) (ground arith)
  zero_at world n inv invs (failing status) e p =
      rw (e, main_from) (ground (arith, main_from-ne-zero world (suc n) status invs))
  zero_at world n inv invs (dirty ws) e p = rw (e, main_from) (ground arith)
  zero_at world n inv invs passed e p = rw (e, main_from) (ground arith)

  main_from-zero_iff :
      (world : ℕ → Round) (n : ℕ) (invs : List (List Str))
      → (main_from setting world n 0 invs ≡ ok 0) ↔ AllClean world n invs
  unfolding main_from
  main_from-zero_iff world n [] = ground arith
  main_from-zero_iff world n (inv ∷ invs) =
      let (to, from) = zero_at world n inv invs _ refl (run_round-IsProper (world n)) in
      let (clean, unclean) = run_round_passed_iff (world n) in
      let (later, back) = main_from-zero_iff world (suc n) invs in
      (λ h. (clean (to h).0, later (to h).1), λ h. from (unclean h.0, back h.1))

  -- The guard exits with status 0 exactly when every run, in order, ended with 0 or with failed
  -- evaluations, dirtied nothing outside the artifact directories, and left no workspace behind,
  -- this last only where the runs have an id and workspaces are not kept on purpose: otherwise
  -- what a run leaves there does not count.
  pub main-zero_iff :
      (world : ℕ → Round) (invs : List (List Str))
      → (main setting world invs ≡ ok 0) ↔ AllClean world 0 invs
  unfolding main
  main-zero_iff world invs = main_from-zero_iff world 0 invs
