-- ===== src/AgentServer/Daemon/Running.antt =====
-- Which daemons run, after any sequence of starts and stops.
use promptfoo_eval_harness.Prelude.{
  ℕ, ◌≡◌, refl, sym, ◌∙◌, subst, inl, inr, Bool, true, false, List, [], ◌∷◌, ◌++◌, Str, is_empty,
  ==_refl, Bool-cases,
}
use promptfoo_eval_harness.Js.{Value}
use promptfoo_eval_harness.AgentServer.Daemon.{
  Pins, Attempt, Handle, Effect, State, Outcome, attempt_from, start_agent_server_daemon, Stopping,
  exited_before, exits_in_time, has_to_be_killed, flush, stop_effects, stop_agent_server_daemon,
  on_exit,
}
use promptfoo_eval_harness.AgentServer.Daemon.Books.{
  running, pids_of, Started, running-append, attempt_from-Started,
}

-- No daemon is active, or one is and the handlers are installed.
abbrev pub IsSingle : List Handle → Bool → Type 0
IsSingle [] installed = Unit
IsSingle (handle ∷ []) installed = installed ≡ true
IsSingle (handle ∷ other ∷ handles) installed = ⊥

-- What a run of the harness may do with the daemon: start it, with what that meets, or stop what is
-- active.
pub data Step : Type 0 where
  starting : Pins → List (Str × Value) → Str → (ℕ → Attempt) → Step
  stopping : Stopping → Step

unfoldable pub take_step : Step → State → List Effect × State
take_step (starting pins env eval_root attempt_at) state =
    let o = start_agent_server_daemon pins env eval_root attempt_at state in (o.0.0, o.1)
take_step (stopping how) state = elim (state.active) [
  | [] ↦ ([], state)
  | handle ∷ handles ↦ stop_agent_server_daemon how handle state
]

-- One step behind the other, each from the state that the one before it left.
unfoldable pub take_steps : List Step → State → List Effect × State
unfolding take_step
take_steps [] state = ([], state)
take_steps (step ∷ steps) state =
    let (effects, next) = take_step step state in
    let (later, last) = take_steps steps next in (effects ++ later, last)

-- The running processes are those of the active handles, of which there is at most one.
abbrev pub Kept : List ℕ → State → Type 0
Kept pids state = (pids ≡ pids_of state) × IsSingle (state.active) (state.signals_installed)

Started-Kept : (o : Outcome) → Started [] o → Kept (running [] o.0.0) o.1
Started-Kept ((effects, result), state) (books, inl (handle, e, one, installed)) =
    (books, rw one installed)
Started-Kept ((effects, result), state) (books, inr (e, f, none_left, x, y)) =
    (books, rw none_left tt)

module _ (pins : Pins) (env : List (Str × Value)) (eval_root : Str) (attempt_at : ℕ → Attempt) where
  Kept-start :
      (pids : List ℕ) (handles : List Handle) (installed : Bool)
      → Kept pids (record { active = handles; signals_installed = installed })
      → let o =
          start_agent_server_daemon pins env eval_root attempt_at
            (record { active = handles; signals_installed = installed }) in
        Kept (running pids o.0.0) o.1
  unfolding start_agent_server_daemon
  Kept-start pids [] installed (books, one) =
      let state : State = record { active = []; signals_installed = installed } in
      rw books (
        Started-Kept (attempt_from pins env eval_root attempt_at 1 2 state)
          (attempt_from-Started pins env eval_root attempt_at state refl))
  Kept-start pids (handle ∷ []) installed (books, one) = unfold running in (books, one)
  Kept-start pids (handle ∷ other ∷ handles) installed (books, one) = elim one [ ]

running-flush : (handle : Handle) → running [] (flush handle) ≡ []
unfolding running
running-flush handle = elim (Bool-cases (is_empty (handle.eval_root))) [
  | inl e ↦ rw e refl
  | inr e ↦ rw e refl
]

running-stop :
    (how : Stopping) (handle : Handle) → running (handle.pid ∷ []) (stop_effects how handle) ≡ []
unfolding running stop_effects
running-stop exited_before handle = rw (==_refl (handle.pid)) refl
running-stop exits_in_time handle = rw (running, ==_refl (handle.pid)) (running-flush handle)
running-stop has_to_be_killed handle = rw (running, ==_refl (handle.pid)) (running-flush handle)

Kept-stop :
    (how : Stopping) (pids : List ℕ) (handles : List Handle) (installed : Bool)
    → Kept pids (record { active = handles; signals_installed = installed })
    → let after =
        take_step (stopping how) (record { active = handles; signals_installed = installed }) in
      Kept (running pids after.0) after.1
unfolding take_step stop_agent_server_daemon
Kept-stop how pids [] installed (books, one) = unfold running in (books, one)
Kept-stop how pids (handle ∷ []) installed (books, one) =
    rw (books, ==_refl (handle.pid)) (running-stop how handle, tt)
Kept-stop how pids (handle ∷ other ∷ handles) installed (books, one) = elim one [ ]

take_step-Kept :
    (step : Step) (pids : List ℕ) (state : State)
    → Kept pids state
    → let after = take_step step state in Kept (running pids after.0) after.1
take_step-Kept (starting pins env eval_root attempt_at) pids state h =
    unfold take_step in
    Kept-start pins env eval_root attempt_at pids (state.active) (state.signals_installed) h
take_step-Kept (stopping how) pids state h =
    Kept-stop how pids (state.active) (state.signals_installed) h

take_steps-Kept_from :
    (steps : List Step) (pids : List ℕ) (state : State)
    → Kept pids state
    → let after = take_steps steps state in Kept (running pids after.0) after.1
unfolding take_steps
take_steps-Kept_from [] pids state h = unfold running in h
take_steps-Kept_from (step ∷ steps) pids state h =
    let after = take_step step state in
    let later = take_steps steps after.1 in
    subst (λ ps. Kept ps later.1) (sym (running-append pids after.0 later.0))
      (take_steps-Kept_from steps (running pids after.0) after.1 (take_step-Kept step pids state h))

on_exit-running :
    (handles : List Handle) (installed : Bool)
    → IsSingle handles installed
    → let state : State = record { active = handles; signals_installed = installed } in
      running (pids_of state) (on_exit state) ≡ []
unfolding on_exit running
on_exit-running [] true h = refl
on_exit-running [] false h = refl
on_exit-running (handle ∷ []) installed h = rw (h, ==_refl (handle.pid)) refl
on_exit-running (handle ∷ other ∷ handles) installed h = elim h [ ]

-- After any sequence of starts and stops, whatever each start meets and however each process takes
-- to its stop: the processes that run are exactly those of the active handles, there is at most
-- one, and the handler of the process's exit leaves none running.
pub take_steps-Kept :
    (steps : List Step)
    → let after = take_steps steps (record { active = []; signals_installed = false }) in
      Kept (running [] after.0) after.1 × (running [] (after.0 ++ on_exit after.1) ≡ [])
take_steps-Kept steps =
    let fresh : State = record { active = []; signals_installed = false } in
    let after = take_steps steps fresh in
    let (books, one) = take_steps-Kept_from steps [] fresh (refl, tt) in
    (
      (books, one),
      running-append [] after.0 (on_exit after.1)
          ∙ rw books (on_exit-running (after.1.active) (after.1.signals_installed) one),
    )
