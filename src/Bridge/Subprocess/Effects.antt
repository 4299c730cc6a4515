-- ===== src/Bridge/Subprocess/Effects.antt =====
-- What a session does to the outside: the subprocess, the messages it is sent, the workspace.
use promptfoo_eval_harness.Prelude.{
  ℕ, suc, ◌+◌, ◌≡◌, refl, ◌∙◌, true, Option, none, some, List, [], ◌∷◌, ◌++◌, arith, length, ◌==◌,
  ==_refl, if◌then◌else◌, Result, ok, err, Bool-cases, inl, inr,
}
use promptfoo_eval_harness.Js.{Value, null}
use promptfoo_eval_harness.Bridge.Runtime.{Runtime}
use promptfoo_eval_harness.Bridge.Report.{Base, Report, Progress, no_progress}
use promptfoo_eval_harness.Bridge.Ipc.{Reply, received, rejected}
use promptfoo_eval_harness.Bridge.Subprocess.{
  Row, World, Message, send_init, send_turn, send_finalize, Effect, made, removed, started,
  shut_down, sent, Told, sends, carry_on, run_turns, start, run_session, is_nullish, is_error,
  ensure_workspace, clean_workspace, run_spawned, dispatch_turns,
}

-- The protocol: init once, then turn 0, 1, 2 and so on, and finalize behind the last of `n` turns.
pub data Stage : Type 0 where
  fresh finished : Stage
  ready : ℕ → Stage

abbrev pub advance : ℕ → Stage → Message → Option Stage
advance n fresh (send_init cfg) = some (ready 0)
advance n (ready i) (send_turn j session turn) = if i == j then some (ready (suc i)) else none
advance n (ready i) (send_finalize session) = if i == n then some finished else none
advance n _ _ = none

-- What the world has of the bridge: the stage of its running subprocess, if there is one.
abbrev pub observe : ℕ → Option Stage → Effect → Option (Option Stage)
observe n none started = some (some fresh)
observe n (some stage) (sent m) = elim (advance n stage m) [
  | none ↦ none
  | some next ↦ some (some next)
]
observe n (some stage) shut_down = some none
observe n s (made dir) = some s
observe n s (removed dir) = some s
observe n _ _ = none

-- `none`: some effect is out of order.
unfoldable pub replay : ℕ → Option Stage → List Effect → Option (Option Stage)
replay n s [] = some s
replay n s (e ∷ es) = elim (observe n s e) [ none ↦ none | some next ↦ replay n next es ]

-- The messages are in order from the stage, and whatever stage they lead to, shutting down there
-- and doing the rest is in order.
abbrev Closes : ℕ → Stage → List Message → Type 0
Closes n stage ms =
    (rest : List Effect)
    → replay n (some stage) (sends ms ++ (shut_down ∷ rest)) ≡ replay n none rest

turn_in_order :
    (n i : ℕ) (session turn : Value) (es : List Effect)
    → replay n (some (ready i)) (sent (send_turn i session turn) ∷ es)
      ≡ replay n (some (ready (suc i))) es
unfolding replay
turn_in_order n i session turn es = rw (==_refl i, replay)

module _ (rt : Runtime) (base : Base) (world : World) where
  carry_on-Closes :
      (n i : ℕ) (session turn : Value) (next : Value → Progress → Told)
      (r : Result Report (Value × Progress))
      → ((resp : Value) (p : Progress) → Closes n (ready (suc i)) (next resp p).1)
      → Closes n (ready i) (carry_on (send_turn i session turn) next r).1
  unfolding carry_on replay
  carry_on-Closes n i session turn next (err report) h rest =
      turn_in_order n i session turn (shut_down ∷ rest)
  carry_on-Closes n i session turn next (ok (resp, p)) h rest =
      turn_in_order n i session turn _ ∙ h resp p rest

  run_turns-Closes :
      (session : Value) (n i : ℕ) (last : Value) (p : Progress) (turns : List Value)
      → i + length turns ≡ n
      → Closes n (ready i) (run_turns rt base world session n i last p turns).1
  unfolding run_turns replay
  run_turns-Closes session n i last p [] e rest =
      let same : (i == n) ≡ true = ground arith in rw (same, replay)
  run_turns-Closes session n i last p (turn ∷ turns) e rest =
      carry_on-Closes n i session turn _ _
        (λ resp p'. run_turns-Closes session n (suc i) resp p' turns (omega arith)) rest

  start-Closes :
      (reply : Reply) (turns : List Value)
      → Closes (length turns) (ready 0) (start rt base world reply turns).1
  unfolding start replay
  start-Closes (rejected e) turns rest = refl
  start-Closes (received v) turns rest = elim (Bool-cases (is_nullish v)) [
    | inl nullish ↦ rw nullish
    | inr present ↦ elim (Bool-cases (is_error v)) [
      | inl failed ↦ rw (present, failed)
      | inr good ↦
          rw (present, good)
            (run_turns-Closes _ (length turns) 0 null no_progress turns (omega arith) rest)
    ]
  ]

replay_workspace :
    (n : ℕ) (row : Row) (es : List Effect)
    → (replay n none (ensure_workspace row ++ es) ≡ replay n none es)
      × (replay n none (clean_workspace row) ≡ some none)
unfolding replay ensure_workspace clean_workspace
replay_workspace n row es = ground arith

run_spawned_in_order :
    (rt : Runtime) (row : Row) (world : World) (spawned : Result Value (Unit {0}))
    (turns : List Value)
    → replay (length turns) none (run_spawned rt row world spawned turns).effects ≡ some none
unfolding run_spawned run_session replay
run_spawned_in_order rt row world (err e) turns =
    (replay_workspace _ row _).0 ∙ (replay_workspace _ row []).1
run_spawned_in_order rt row world (ok _) turns =
    (replay_workspace _ row _).0
    ∙ start-Closes rt _ world world.on_init turns _
    ∙ (replay_workspace _ row []).1

-- Whatever happens in a session, its effects are in order: a message goes only to a running
-- subprocess, init comes first, the turns follow in order from the first, finalize comes only
-- behind the last one, and in the end no subprocess is left running.
pub dispatch_turns_in_order :
    (rt : Runtime) (row : Row) (world : World) (turns : List Value)
    → replay (length turns) none (dispatch_turns rt row world turns).effects ≡ some none
unfolding dispatch_turns
dispatch_turns_in_order rt row world turns = run_spawned_in_order rt row world world.spawned turns
