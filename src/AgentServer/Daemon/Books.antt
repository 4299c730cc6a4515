-- ===== src/AgentServer/Daemon/Books.antt =====
-- What a start does, and which processes it leaves.
use promptfoo_eval_harness.Prelude.{
  ℕ, ◌≡◌, ◌≢◌, refl, ap, sym, ◌∙◌, subst, ◌⊎◌, inl, inr, Bool, true, false, ◌&&◌, none, some, List,
  [], ◌∷◌, ◌++◌, map, arith, Str, ◌==◌, ==_refl, if◌then◌else◌, Result, ok, err,
}
use promptfoo_eval_harness.Js.{Value}
use promptfoo_eval_harness.AgentServer.Ready.{Failure, is_e_addr_in_use, Waited, wait_for_ready}
use promptfoo_eval_harness.AgentServer.Ready.Terminates.{wait_for_ready-returns}
use promptfoo_eval_harness.AgentServer.Daemon.{
  Pins, Attempt, Handle, Error, exhausted, unfinished, no_port, failed_start, Effect, spawned,
  terminated, killed, saw_exit, flushed_log, State, without, adding, argv_of, build_child_env,
  enriched, failure_of, url_of, timeout_of, Outcome, before, handle_at, catch_failure, after_wait,
  on_port, attempt_from, start_agent_server_daemon,
}

-- The processes that run behind an effect.
abbrev pub remove : ℕ → List ℕ → List ℕ
remove pid [] = []
remove pid (p ∷ pids) = if p == pid then pids else p ∷ remove pid pids

unfoldable pub running : List ℕ → List Effect → List ℕ
running pids [] = pids
running pids (spawned pid words env ∷ effects) = running (pid ∷ pids) effects
running pids (terminated pid ∷ effects) = running pids effects
running pids (killed pid ∷ effects) = running (remove pid pids) effects
running pids (saw_exit pid ∷ effects) = running (remove pid pids) effects
running pids (flushed_log root ∷ effects) = running pids effects

abbrev pub pids_of : State → List ℕ
pids_of state = map (λ h. h.pid) (state.active)

pub running-append :
    (pids : List ℕ) (xs ys : List Effect) → running pids (xs ++ ys) ≡ running (running pids xs) ys
unfolding running
running-append pids [] ys = refl
running-append pids (spawned p w e ∷ xs) ys = running-append (p ∷ pids) xs ys
running-append pids (terminated p ∷ xs) ys = running-append pids xs ys
running-append pids (killed p ∷ xs) ys = running-append (remove p pids) xs ys
running-append pids (saw_exit p ∷ xs) ys = running-append (remove p pids) xs ys
running-append pids (flushed_log r ∷ xs) ys = running-append pids xs ys

-- A start from no active daemon, with `pids` running: what it has done keeps the books, and either
-- it returns the one handle that is active then, or none is and it throws, yet not for want of
-- attempts, nor for a wait without an end.
abbrev pub Started : List ℕ → Outcome → Type 0
Started pids ((effects, result), state) =
    (running pids effects ≡ pids_of state)
    × (((handle : Handle) × (result ≡ ok handle)
          × (state.active ≡ handle ∷ [])
          × (state.signals_installed ≡ true))
        ⊎ ((e : Error) × (result ≡ err e)
            × (state.active ≡ [])
            × (e ≢ exhausted)
            × (e ≢ unfinished)))

before-Started :
    (pids : List ℕ) (effects : List Effect) (o : Outcome)
    → Started (running pids effects) o
    → Started pids (before effects o)
before-Started pids effects ((later, result), state) (books, h) =
    (running-append pids effects later ∙ books, h)

if-Started :
    (pids : List ℕ) (c : Bool) (a b : Outcome)
    → (c ≡ true → Started pids a)
    → (c ≡ false → Started pids b)
    → Started pids (if c then a else b)
if-Started pids true a b h k = h refl
if-Started pids false a b h k = k refl

module _ (pins : Pins) (env : List (Str × Value)) (eval_root : Str) (attempt_at : ℕ → Attempt) where
  -- The books of an attempt whose wait fails.
  catch_failure-Started :
      (attempt port : ℕ) (e : Failure) (again : State → Outcome)
      → (attempt ≡ 1 → (s : State) → s.active ≡ [] → Started [] (again s))
      → Started ((attempt_at attempt).pid ∷ []) (
          catch_failure pins env eval_root attempt_at attempt
            (record {
              active = handle_at pins env eval_root attempt_at attempt port ∷ [];
              signals_installed = true;
            })
            e
            again)
  catch_failure-Started attempt port e again h =
      let pid = (attempt_at attempt).pid in
      let state : State = record {
        active = handle_at pins env eval_root attempt_at attempt port ∷ [];
        signals_installed = true;
      } in
      let gone : remove pid (pid ∷ []) ≡ [] = rw (==_refl pid) refl in
      let none_left : (without pid state).active ≡ [] = rw (==_refl pid) refl in
      let again_Started : (is_e_addr_in_use (some e) && attempt == 1) ≡ true
          → Started [] (again (without pid state)) =
        λ retry. h (ground arith) (without pid state) none_left in
      unfold catch_failure running in
      if-Started (pid ∷ []) (is_e_addr_in_use (some e) && attempt == 1)
        (before (killed pid ∷ []) (again (without pid state)))
        (
          (killed pid ∷ [], err (failed_start (enriched e ((attempt_at attempt).stderr)))),
          without pid state,
        )
        (λ retry.
          before-Started (pid ∷ []) (killed pid ∷ []) (again (without pid state))
            (rw gone (again_Started retry)))
        (λ last. (
          gone ∙ sym (ap (map (λ x. x.pid)) none_left),
          inr (
            failed_start (enriched e ((attempt_at attempt).stderr)),
            refl,
            none_left,
            (λ x. cc),
            (λ x. cc),
          ),
        ))

  -- The handle of an attempt, active alone.
  abbrev alone : ℕ → ℕ → State
  alone attempt port = record {
    active = handle_at pins env eval_root attempt_at attempt port ∷ [];
    signals_installed = true;
  }

  after_wait-Started :
      (attempt port : ℕ) (waited : Waited) (again : State → Outcome)
      → (attempt ≡ 1 → (s : State) → s.active ≡ [] → Started [] (again s))
      → Started ((attempt_at attempt).pid ∷ []) (
          after_wait pins env eval_root attempt_at attempt port
            (alone attempt port)
            (some waited)
            again)
  unfolding after_wait
  after_wait-Started attempt port waited again h =
      elim (failure_of (url_of port) (timeout_of pins) (waited.end))
        as (λ o. Started ((attempt_at attempt).pid ∷ []) (elim o [
          | none ↦
              (([], ok (handle_at pins env eval_root attempt_at attempt port)), alone attempt port)
          | some e ↦
              catch_failure pins env eval_root attempt_at attempt (alone attempt port) e again
        ])) [
          | none ↦ (
            unfold running in refl,
            inl (handle_at pins env eval_root attempt_at attempt port, refl, refl, refl),
          )
          | some e ↦ catch_failure-Started attempt port e again h
        ]

  on_port-Started :
      (attempt : ℕ) (state : State) (port : Result Failure ℕ) (again : State → Outcome)
      → state.active ≡ []
      → (attempt ≡ 1 → (s : State) → s.active ≡ [] → Started [] (again s))
      → Started [] (on_port pins env eval_root attempt_at attempt state port again)
  unfolding on_port running
  on_port-Started attempt state (err e) again none_active h = (
    sym (ap (map (λ x. x.pid)) none_active),
    inr (no_port e, refl, none_active, (λ x. cc), (λ x. cc)),
  )
  on_port-Started attempt state (ok port) again none_active h =
      let a = attempt_at attempt in
      let (waited, e, most) = wait_for_ready-returns (a.poll) (a.start) (timeout_of pins) in
      let ended : Started (a.pid ∷ []) (
          after_wait pins env eval_root attempt_at attempt port (alone attempt port)
            (wait_for_ready (a.poll) (a.start) (timeout_of pins)) again) =
        rw e (after_wait-Started attempt port waited again h) in
      before-Started []
        (spawned (a.pid) (argv_of pins port) (build_child_env env (pins.env_allowlist)) ∷ [])
        (after_wait pins env eval_root attempt_at attempt port
          (adding (handle_at pins env eval_root attempt_at attempt port) state)
          (wait_for_ready (a.poll) (a.start) (timeout_of pins)) again)
        (subst
          (λ handles. Started (a.pid ∷ []) (
            after_wait pins env eval_root attempt_at attempt port
              (record {
                active = handle_at pins env eval_root attempt_at attempt port ∷ handles;
                signals_installed = true;
              })
              (wait_for_ready (a.poll) (a.start) (timeout_of pins)) again))
          (sym none_active) ended)

  pub attempt_from-Started :
      (state : State)
      → state.active ≡ []
      → Started [] (attempt_from pins env eval_root attempt_at 1 2 state)
  unfolding attempt_from
  attempt_from-Started state none_active =
      on_port-Started 1 state ((attempt_at 1).port) (attempt_from pins env eval_root attempt_at 2 1)
        none_active
        (λ first s s_none.
          on_port-Started 2 s ((attempt_at 2).port) (attempt_from pins env eval_root attempt_at 3 0)
            s_none (λ second. let no : ⊥ = omega (arith, second) in elim no [ ]))

-- A start from no active daemon comes to an end. It returns the one handle that is active from then
-- on, with its process running; or it throws, no handle is active, and no process that it spawned
-- is left. It never throws for want of attempts.
pub start_agent_server_daemon-Started :
    (pins : Pins) (env : List (Str × Value)) (eval_root : Str) (attempt_at : ℕ → Attempt)
    (installed : Bool)
    → Started [] (
        start_agent_server_daemon pins env eval_root attempt_at
          (record { active = []; signals_installed = installed }))
unfolding start_agent_server_daemon
start_agent_server_daemon-Started pins env eval_root attempt_at installed =
    attempt_from-Started pins env eval_root attempt_at
      (record { active = []; signals_installed = installed }) refl
