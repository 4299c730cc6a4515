-- ===== src/Bridge/Call/Dispatch.antt =====
-- What the command-line branch reports.
use promptfoo_eval_harness.Prelude.{
  ℕ, suc, ◌≡◌, refl, sym, subst, ◌∙◌, inl, inr, List, [], ◌∷◌, ◌++◌, lit, append_assoc, append-nil,
  some, Result, ok, err, Bool-cases,
}
use promptfoo_eval_harness.Js.{Value, get, truthy}
use promptfoo_eval_harness.Bridge.Runtime.{Runtime}
use promptfoo_eval_harness.Bridge.Report.{
  Base, Entry, Progress, push_turn, no_progress, error_return,
}
use promptfoo_eval_harness.Bridge.Subprocess.Account.{IsAccount}
use promptfoo_eval_harness.Bridge.Call.{Cli, multi_turn_error, refuse_turns, run_cli, dispatch_cli}

-- The entries refuse the turns from turn `i` on.
abbrev pub Refuses : ℕ → List Value → List Entry → Type 0
Refuses i [] [] = Unit
Refuses i (t ∷ ts) (e ∷ es) =
    (e.turn_index ≡ i) × (e.input ≡ t) × (e.error ≡ some multi_turn_error) × Refuses (suc i) ts es
Refuses i _ _ = ⊥

refuse_turns-append :
    (i : ℕ) (turns : List Value) (p : Progress)
    → (es : List Entry) × ((refuse_turns i turns p).transcript ≡ p.transcript ++ es)
      × Refuses i turns es
unfolding refuse_turns push_turn
refuse_turns-append i [] p = ([], sym (append-nil _), tt)
refuse_turns-append i (t ∷ ts) p =
    let (es, e, h) = refuse_turns-append (suc i) ts _ in
    (_, e ∙ append_assoc p.transcript (_ ∷ []) es, (refl, refl, refl, h))

refuse_turns-Refuses :
    (turns : List Value) → Refuses 0 turns (refuse_turns 0 turns no_progress).transcript
refuse_turns-Refuses turns =
    let (es, e, h) = refuse_turns-append 0 turns no_progress in subst (Refuses 0 turns) (sym e) h

run_cli-IsAccount :
    (rt : Runtime) (base : Base) (c : Cli) (answer : Result Value Value) (t : Value)
    → IsAccount (t ∷ []) (run_cli rt base c answer t)
unfolding run_cli error_return push_turn
run_cli-IsAccount rt base c (err e) t =
    ([], t ∷ [], refl, refl, inr (t, [], _, refl, (refl, refl, (_, refl)), refl), inr (_, refl))
run_cli-IsAccount rt base c (ok res) t = elim (Bool-cases (truthy (get (lit "error") res))) [
  | inl failed ↦
      rw failed
        ([], t ∷ [], refl, refl, inr (t, [], _, refl, (refl, refl, (_, refl)), refl), inr (_, refl))
  | inr good ↦
      rw good (_ ∷ [], [], (refl, refl, refl, refl), refl, inl refl, inl (refl, refl, refl))
]

-- The command-line provider refuses a row of two turns or more: it completes none, its transcript
-- holds each of the turns in order with the refusal, and so does the error that it reports.
pub dispatch_cli-Refuses :
    (rt : Runtime) (base : Base) (c : Cli) (t u : Value) (ts : List Value)
    → let r = dispatch_cli rt base c (some (t ∷ u ∷ ts)) in
      (r.turns_completed ≡ 0)
      × Refuses 0 (t ∷ u ∷ ts) r.transcript
      × (r.provider_error ≡ some multi_turn_error)
unfolding dispatch_cli
dispatch_cli-Refuses rt base c t u ts = (refl, refuse_turns-Refuses (t ∷ u ∷ ts), refl)

-- Whatever the command-line provider answers or throws, the report of a row of one turn accounts
-- for it, just as that of a subprocess session does.
pub dispatch_cli-IsAccount :
    (rt : Runtime) (base : Base) (c : Cli) (t : Value)
    → IsAccount (t ∷ []) (dispatch_cli rt base c (some (t ∷ [])))
unfolding dispatch_cli
dispatch_cli-IsAccount rt base c t = run_cli-IsAccount rt base c c.answer t
