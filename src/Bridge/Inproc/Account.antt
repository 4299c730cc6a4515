-- ===== src/Bridge/Inproc/Account.antt =====
-- The report of a session in the process.

use promptfoo_eval_harness.Prelude.{
  ℕ, suc, ◌+◌, ◌≡◌, refl, sym, subst, inl, inr, List, [], ◌∷◌, ◌++◌, arith, Str, lit, length,
  length-append, includes, Result, ok, err, Bool-cases,
}
use promptfoo_eval_harness.Js.{Value, str, null, get, truthy}
use promptfoo_eval_harness.Bridge.Runtime.{Runtime}
use promptfoo_eval_harness.Bridge.Report.{
  ProviderError, Base, Report, Progress, no_progress, error_return, push_turn, base_metadata,
}
use promptfoo_eval_harness.Bridge.Subprocess.{Row}
use promptfoo_eval_harness.Bridge.Subprocess.Account.{IsAccount, IsProgress, Follows-concat}
use promptfoo_eval_harness.Bridge.Inproc.{
  Provider, Loaded, load_failed, factory_failed, no_factory, loaded, fail, failed_turn,
  completed_turn, take_turn, finish, proceed, run_turns, run_session, run_provider, not_loaded,
  load_provider, dispatch_turns,
}

module _ (rt : Runtime) (base : Base) (provider : Provider) (turns : List Value) where
  fail-IsAccount :
      (e : Value) (i : ℕ) (p : Progress) (rest : List Value)
      → IsProgress turns i p rest
      → IsAccount turns (fail rt base provider e i p)
  unfolding fail error_return
  fail-IsAccount e i p rest (f, l, o) = (p.transcript, rest, f, sym l, inl refl, inr (_, refl))

  failed_turn-IsAccount :
      (e output calls : Value) (i : ℕ) (t : Value) (p : Progress) (ts : List Value)
      → IsProgress turns i p (t ∷ ts)
      → IsAccount turns (failed_turn rt base provider e output calls i t p)
  unfolding failed_turn error_return push_turn
  failed_turn-IsAccount e output calls i t p ts (f, l, o) = (
    p.transcript,
    t ∷ ts,
    f,
    sym l,
    inr (t, ts, _, refl, (sym l, refl, (_, refl)), refl),
    inr (_, refl),
  )

  completed_turn-IsProgress :
      (res : Value) (i : ℕ) (t : Value) (p : Progress) (ts : List Value)
      → IsProgress turns i p (t ∷ ts)
      → IsProgress turns (suc i) (completed_turn rt base provider res i t p) ts
  unfolding completed_turn push_turn
  completed_turn-IsProgress res i t p ts (f, l, o) = (
    Follows-concat 0 turns p.transcript t ts _ f (omega arith) refl refl,
    omega (arith, length-append p.transcript),
    omega (arith, length-append p.outputs),
  )

  abbrev Leads : ℕ → List Value → Result Report (Value × Progress) → Type 0
  Leads i ts (err report) = IsAccount turns report
  Leads i ts (ok (res, p)) = IsProgress turns (suc i) p ts

  take_turn-Leads :
      (awaited : Result Value Value) (i : ℕ) (t : Value) (p : Progress) (ts : List Value)
      → IsProgress turns i p (t ∷ ts)
      → Leads i ts (take_turn rt base provider awaited i t p)
  unfolding take_turn
  take_turn-Leads (err e) i t p ts h = failed_turn-IsAccount e _ _ i t p ts h
  take_turn-Leads (ok res) i t p ts h = elim (Bool-cases (truthy (get (lit "error") res))) [
    | inl failed ↦ rw failed (failed_turn-IsAccount (get (lit "error") res) _ _ i t p ts h)
    | inr good ↦ rw good (completed_turn-IsProgress res i t p ts h)
  ]

  finish-IsAccount :
      (final : Result Value Value) (last : Value) (p : Progress)
      → IsProgress turns (length turns) p []
      → IsAccount turns (finish rt base provider final last (length turns) p)
  unfolding finish
  finish-IsAccount (err e) last p h = fail-IsAccount e (length turns) p [] h
  finish-IsAccount (ok v) last p h =
      (p.transcript, [], h.0, sym h.1, inl refl, inl (refl, refl, refl))

  proceed-IsAccount :
      (next : Value → Progress → Report) (i : ℕ) (ts : List Value)
      (r : Result Report (Value × Progress))
      → Leads i ts r
      → ((res : Value) (p : Progress)
          → IsProgress turns (suc i) p ts
          → IsAccount turns (next res p))
      → IsAccount turns (proceed rt base provider next r)
  proceed-IsAccount next i ts (err report) h k = h
  proceed-IsAccount next i ts (ok (res, p)) h k = k res p h

  run_turns-IsAccount :
      (i : ℕ) (last : Value) (p : Progress) (ts : List Value)
      → i + length ts ≡ length turns
      → IsProgress turns i p ts
      → IsAccount turns (run_turns rt base provider (length turns) i last p ts)
  unfolding run_turns
  run_turns-IsAccount i last p [] e h =
      finish-IsAccount provider.on_finalize last p
        (subst (λ k. IsProgress turns k p []) (omega arith) h)
  run_turns-IsAccount i last p (t ∷ ts) e h =
      proceed-IsAccount _ i ts _ (take_turn-Leads (provider.on_turn i) i t p ts h)
        (λ res p' k. run_turns-IsAccount (suc i) res p' ts (omega arith) k)

  run_session-IsAccount :
      (session : Result Value Value)
      → IsAccount turns (run_session rt base provider session turns).0
  unfolding run_session
  run_session-IsAccount (err e) = fail-IsAccount e 0 no_progress turns (refl, refl, refl)
  run_session-IsAccount (ok session) =
      run_turns-IsAccount 0 null no_progress turns (omega arith) (refl, refl, refl)

not_loaded-IsAccount :
    (rt : Runtime) (row : Row) (provider : Provider) (cache : List Str) (e : ProviderError)
    (turns : List Value)
    → IsAccount turns (not_loaded rt row provider cache e).report
unfolding not_loaded error_return
not_loaded-IsAccount rt row provider cache e turns =
    ([], turns, refl, refl, inl refl, inr (_, refl))

run_provider-IsAccount :
    (rt : Runtime) (row : Row) (provider : Provider) (cache : List Str) (turns : List Value)
    → IsAccount turns (run_provider rt row provider cache turns).report
unfolding run_provider
run_provider-IsAccount rt row provider cache turns =
    run_session-IsAccount rt (base_metadata row.cfg (str row.run_id)) provider turns
      provider.on_init

load_provider-IsAccount :
    (rt : Runtime) (row : Row) (provider : Provider) (l : Loaded) (kind : Str) (cache : List Str)
    (turns : List Value)
    → IsAccount turns (load_provider rt row provider l kind cache turns).report
unfolding load_provider
load_provider-IsAccount rt row provider (load_failed e) kind cache turns =
    not_loaded-IsAccount rt row provider cache _ turns
load_provider-IsAccount rt row provider (factory_failed e) kind cache turns =
    not_loaded-IsAccount rt row provider cache _ turns
load_provider-IsAccount rt row provider no_factory kind cache turns =
    not_loaded-IsAccount rt row provider cache _ turns
load_provider-IsAccount rt row provider loaded kind cache turns =
    run_provider-IsAccount rt row provider (cache ++ kind ∷ []) turns

-- Whatever a provider in the process does, throws or returns, the report of a row accounts for its
-- turns, just as that of a subprocess session does.
pub dispatch_inproc_turns-IsAccount :
    (rt : Runtime) (row : Row) (provider : Provider) (kind : Str) (cache : List Str)
    (turns : List Value)
    → IsAccount turns (dispatch_turns rt row provider kind cache turns).report
unfolding dispatch_turns
dispatch_inproc_turns-IsAccount rt row provider kind cache turns =
    elim (Bool-cases (includes cache kind)) [
      | inl known ↦ rw known (run_provider-IsAccount rt row provider cache turns)
      | inr new ↦ rw new (load_provider-IsAccount rt row provider provider.loading kind cache turns)
    ]
