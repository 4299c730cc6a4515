-- ===== src/Bridge/Subprocess/Account.antt =====
-- The report of a subprocess session accounts for the turns, whatever the subprocess answers.
use promptfoo_eval_harness.Prelude.{
  ℕ, suc, ◌+◌, ◌≡◌, refl, sym, subst, ◌⊎◌, inl, inr, ◌||◌, none, some, List, [], ◌∷◌, ◌++◌, arith,
  lit, length, length-append, Result, ok, err, Bool-cases,
}
use promptfoo_eval_harness.Js.{Value, str, null, get, truthy}
use promptfoo_eval_harness.Bridge.Runtime.{Runtime}
use promptfoo_eval_harness.Bridge.Report.{
  base_metadata, ProviderError, Base, Entry, Report, Progress, no_progress, push_turn, error_return,
}
use promptfoo_eval_harness.Bridge.Ipc.{Reply, received, rejected}
use promptfoo_eval_harness.Bridge.Subprocess.{
  is_nullish, is_error, World, Told, caught, timed, caught_in_turn, failed_turn, completed_turn,
  succeeded, finish, take_reply, run_turns, run_session, start, carry_on, Message, Row, run_spawned,
  dispatch_turns,
}

-- The entries tell of the first turns in order, from turn `i` on, each with its own input and no
-- error, and leave the turns of `rest`.
abbrev pub Follows : ℕ → List Value → List Entry → List Value → Type 0
Follows i turns [] rest = turns ≡ rest
Follows i [] (e ∷ es) rest = ⊥
Follows i (t ∷ ts) (e ∷ es) rest =
    (e.turn_index ≡ i) × (e.input ≡ t) × (e.error ≡ none) × Follows (suc i) ts es rest

-- The entry of a turn that was attempted and failed.
abbrev pub IsFailure : ℕ → Value → Entry → Type 0
IsFailure i t e = (e.turn_index ≡ i) × (e.input ≡ t) × ((f : ProviderError) × (e.error ≡ some f))

-- What a report says of the turns: those that completed, in order, and behind them nothing or the
-- first that did not. Its count is that of the completed turns, and either it reports an error or
-- there are no others.
abbrev pub IsAccount : List Value → Report → Type 0
IsAccount turns r =
    (done : List Entry) × (rest : List Value) × Follows 0 turns done rest
    × (r.turns_completed ≡ length done)
    × ((r.transcript ≡ done)
        ⊎ ((t : Value) × (ts : List Value) × (e : Entry) × (rest ≡ t ∷ ts)
            × IsFailure (length done) t e
            × (r.transcript ≡ done ++ e ∷ [])))
    × (((r.error ≡ none) × (rest ≡ []) × (r.transcript ≡ done))
        ⊎ ((m : Value) × (r.error ≡ some m)))

pub Follows-concat :
    (i : ℕ) (turns : List Value) (es : List Entry) (t : Value) (ts : List Value) (e : Entry)
    → Follows i turns es (t ∷ ts)
    → e.turn_index ≡ i + length es
    → e.input ≡ t
    → e.error ≡ none
    → Follows i turns (es ++ e ∷ []) ts
Follows-concat i [] [] t ts e h a b c = cc
Follows-concat i (u ∷ us) [] t ts e h a b c = ground arith
Follows-concat i [] (x ∷ es) t ts e h a b c = absurd h
Follows-concat i (u ∷ us) (x ∷ es) t ts e (p, q, r, h) a b c =
    (p, q, r, Follows-concat (suc i) us es t ts e h (omega arith) b c)

-- The progress behind `i` turns.
abbrev pub IsProgress : List Value → ℕ → Progress → List Value → Type 0
IsProgress turns i p rest =
    Follows 0 turns p.transcript rest × (length p.transcript ≡ i) × (length p.outputs ≡ i)

module _ (rt : Runtime) (base : Base) (world : World) (turns : List Value) where
  caught-IsAccount :
      (e : Value) (i : ℕ) (p : Progress) (rest : List Value)
      → IsProgress turns i p rest
      → IsAccount turns (caught rt base world e p)
  unfolding caught error_return
  caught-IsAccount e i p rest (f, l, o) =
      (p.transcript, rest, f, omega arith, inl refl, inr (_, refl))

  caught_in_turn-IsAccount :
      (e : Value) (i : ℕ) (t : Value) (p : Progress) (ts : List Value)
      → IsProgress turns i p (t ∷ ts)
      → IsAccount turns (caught_in_turn rt base world e i t p)
  unfolding caught_in_turn error_return push_turn
  caught_in_turn-IsAccount e i t p ts (f, l, o) = (
    p.transcript,
    t ∷ ts,
    f,
    omega arith,
    inr (t, ts, _, refl, (sym l, refl, (_, refl)), refl),
    inr (_, refl),
  )

  failed_turn-IsAccount :
      (resp : Value) (i : ℕ) (t : Value) (p : Progress) (ts : List Value)
      → IsProgress turns i p (t ∷ ts)
      → IsAccount turns (failed_turn rt base world resp i t p)
  unfolding failed_turn push_turn
  failed_turn-IsAccount resp i t p ts (f, l, o) = (
    p.transcript,
    t ∷ ts,
    f,
    sym l,
    inr (t, ts, _, refl, (sym l, refl, (_, refl)), refl),
    inr (_, refl),
  )

  completed_turn-IsProgress :
      (resp : Value) (i : ℕ) (t : Value) (p : Progress) (ts : List Value)
      → IsProgress turns i p (t ∷ ts)
      → IsProgress turns (suc i) (completed_turn rt base world resp i t p) ts
  unfolding completed_turn push_turn
  completed_turn-IsProgress resp i t p ts (f, l, o) = (
    Follows-concat 0 turns p.transcript t ts _ f (omega arith) refl refl,
    omega (arith, length-append p.transcript),
    omega (arith, length-append p.outputs),
  )

  -- What a reply leads to keeps the account.
  abbrev Leads : ℕ → List Value → Result Report (Value × Progress) → Type 0
  Leads i ts (err report) = IsAccount turns report
  Leads i ts (ok (resp, p)) = IsProgress turns (suc i) p ts

  take_reply-Leads :
      (reply : Reply) (i : ℕ) (t : Value) (p : Progress) (ts : List Value)
      → IsProgress turns i p (t ∷ ts)
      → Leads i ts (take_reply rt base world reply i t p)
  unfolding take_reply
  take_reply-Leads (rejected e) i t p ts h = caught_in_turn-IsAccount e i t p ts h
  take_reply-Leads (received resp) i t p ts h = elim (Bool-cases (is_nullish resp)) [
    | inl nullish ↦
        rw nullish (caught-IsAccount rt.null_read i (timed rt base world p i) (t ∷ ts) h)
    | inr present ↦ elim (Bool-cases (is_error resp || truthy (get (lit "error") resp))) [
      | inl failed ↦
          rw (present, failed) (failed_turn-IsAccount resp i t (timed rt base world p i) ts h)
      | inr good ↦
          rw (present, good) (completed_turn-IsProgress resp i t (timed rt base world p i) ts h)
    ]
  ]

  finish-IsAccount :
      (reply : Reply) (last : Value) (p : Progress)
      → IsProgress turns (length turns) p []
      → IsAccount turns (finish rt base world reply last (length turns) p)
  unfolding finish succeeded
  finish-IsAccount (rejected e) last p h = caught-IsAccount e (length turns) p [] h
  finish-IsAccount (received v) last p h = elim (Bool-cases (is_nullish v)) [
    | inl nullish ↦ rw nullish (caught-IsAccount rt.null_read (length turns) p [] h)
    | inr present ↦ rw present (p.transcript, [], h.0, sym h.1, inl refl, inl (refl, refl, refl))
  ]

  carry_on-IsAccount :
      (m : Message) (next : Value → Progress → Told) (i : ℕ) (ts : List Value)
      (r : Result Report (Value × Progress))
      → Leads i ts r
      → ((resp : Value) (p : Progress)
          → IsProgress turns (suc i) p ts
          → IsAccount turns (next resp p).0)
      → IsAccount turns (carry_on m next r).0
  unfolding carry_on
  carry_on-IsAccount m next i ts (err report) h k = h
  carry_on-IsAccount m next i ts (ok (resp, p)) h k = k resp p h

  run_turns-IsAccount :
      (session : Value) (i : ℕ) (last : Value) (p : Progress) (ts : List Value)
      → i + length ts ≡ length turns
      → IsProgress turns i p ts
      → IsAccount turns (run_turns rt base world session (length turns) i last p ts).0
  unfolding run_turns
  run_turns-IsAccount session i last p [] e h =
      finish-IsAccount world.on_finalize last p
        (subst (λ k. IsProgress turns k p []) (omega arith) h)
  run_turns-IsAccount session i last p (t ∷ ts) e h =
      carry_on-IsAccount _ _ i ts _ (take_reply-Leads (world.on_turn i) i t p ts h)
        (λ resp p' k. run_turns-IsAccount session (suc i) resp p' ts (omega arith) k)

  start-IsAccount : (reply : Reply) → IsAccount turns (start rt base world reply turns).0
  unfolding start error_return
  start-IsAccount (rejected e) = caught-IsAccount e 0 no_progress turns (refl, refl, refl)
  start-IsAccount (received v) = elim (Bool-cases (is_nullish v)) [
    | inl nullish ↦
        rw nullish (caught-IsAccount rt.null_read 0 no_progress turns (refl, refl, refl))
    | inr present ↦ elim (Bool-cases (is_error v)) [
      | inl failed ↦ rw (present, failed) ([], turns, refl, refl, inl refl, inr (_, refl))
      | inr good ↦
          rw (present, good)
            (run_turns-IsAccount _ 0 null no_progress turns (omega arith) (refl, refl, refl))
    ]
  ]

run_spawned-IsAccount :
    (rt : Runtime) (row : Row) (world : World) (spawned : Result Value (Unit {0}))
    (turns : List Value)
    → IsAccount turns (run_spawned rt row world spawned turns).report
unfolding run_spawned run_session
run_spawned-IsAccount rt row world (err e) turns =
    caught-IsAccount rt _ world turns e 0 no_progress turns (refl, refl, refl)
run_spawned-IsAccount rt row world (ok _) turns =
    start-IsAccount rt (base_metadata row.cfg (str row.run_id)) world turns world.on_init

-- Whatever the subprocess replies, or fails to reply, the report of a row accounts for its turns:
-- its transcript is the turns that completed, in order and with their own inputs, followed at most
-- by the one that failed; its count is that of the completed turns; and either it reports an error
-- or every turn completed.
pub dispatch_turns-IsAccount :
    (rt : Runtime) (row : Row) (world : World) (turns : List Value)
    → IsAccount turns (dispatch_turns rt row world turns).report
unfolding dispatch_turns
dispatch_turns-IsAccount rt row world turns = run_spawned-IsAccount rt row world world.spawned turns
