-- ===== src/OpenCodeCli/Count.antt =====
-- The turns of a session, counted.
use promptfoo_eval_harness.Prelude.{
  ℕ, suc, ◌+◌, ◌≡◌, refl, ap, sym, ◌∙◌, List, [], ◌∷◌, arith, Str, lit, str_eq, Bool-cases, inl,
  inr, Result, ok, err,
}
use promptfoo_eval_harness.Js.{pos, integer, Value, num, get, lookup}
use promptfoo_eval_harness.Invocation.Major.{Cache}
use promptfoo_eval_harness.OpenCodeCli.{
  Surroundings, RunOptions, Reply, output, error, Session, init, finalize, After, turned, turn,
  is_mock, is_complete,
}

-- The replies that are outputs.
unfoldable pub outputs : List Reply → ℕ
outputs [] = 0
outputs (output text ∷ replies) = suc (outputs replies)
outputs (error message ∷ replies) = outputs replies

module _ {W : Type 0} (runner : List Str → RunOptions → W → Result Str Str × W)
    (around : Surroundings) (config : Value) where
  -- The turns of a session, one behind the other.
  unfoldable pub run_turns : Session → List Str → Cache → W → List Reply × Session
  run_turns session [] cache world = ([], session)
  run_turns session (input ∷ inputs) cache world =
      let after = turn runner around config session input cache world in
      let (replies, last) = run_turns (after.session) inputs (after.cache) (after.world) in
      (after.reply ∷ replies, last)

  turned-count :
      (session : Session) (r : (Result Str Str × W) × Cache) (replies : List Reply)
      → session.turn_count + outputs (After.reply (turned runner around session r) ∷ replies)
        ≡ (turned runner around session r).session.turn_count + outputs replies
  unfolding turned outputs
  turned-count session ((ok text, world), cache) replies = omega arith
  turned-count session ((err message, world), cache) replies = refl

  turn-count :
      (session : Session) (input : Str) (cache : Cache) (world : W) (replies : List Reply)
      → let after = turn runner around config session input cache world in
        session.turn_count + outputs (after.reply ∷ replies)
        ≡ after.session.turn_count + outputs replies
  unfolding turn outputs
  turn-count session input cache world replies = elim (Bool-cases (is_mock (around.env))) [
    | inl mock ↦ rw mock (omega arith)
    | inr live ↦ elim (Bool-cases (is_complete config)) [
      | inl complete ↦ rw (live, complete) (turned-count session _ replies)
      | inr missing ↦ rw (live, missing) refl
    ]
  ]

  run_turns-count_from :
      (session : Session) (inputs : List Str) (cache : Cache) (world : W)
      → let (replies, last) = run_turns session inputs cache world in
        last.turn_count ≡ session.turn_count + outputs replies
  unfolding run_turns outputs
  run_turns-count_from session [] cache world = omega arith
  run_turns-count_from session (input ∷ inputs) cache world =
      let after = turn runner around config session input cache world in
      run_turns-count_from (after.session) inputs (after.cache) (after.world)
      ∙ sym (
          turn-count session input cache world
            (run_turns (after.session) inputs (after.cache) (after.world)).0)

  -- However the turns of a session end, in mock mode or not, the number of completed turns that its
  -- summary reports is that of the replies that are outputs; a reply with an error counts for none.
  pub run_turns-finalize :
      (inputs : List Str) (cache : Cache) (world : W)
      → let (replies, last) = run_turns init inputs cache world in
        get (lit "turns_completed") (finalize last) ≡ num (integer (pos (outputs replies)))
  unfolding init finalize get lookup str_eq lit
  run_turns-finalize inputs cache world =
      ap (λ n. num (integer (pos n))) (run_turns-count_from init inputs cache world ∙ omega arith)
