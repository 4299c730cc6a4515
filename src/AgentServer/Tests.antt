-- ===== src/AgentServer/Tests.antt =====
-- A daemon whose first port is taken, and the theorems at concrete inputs.
use promptfoo_eval_harness.Prelude.{
  ℕ, zero, suc, ◌/◌, ◌≤◌, ◌≡◌, false, List, [], ◌∷◌, ◌++◌, lit, some, ok,
}
use promptfoo_eval_harness.AgentServer.Ready.{
  Failure, responded, errored, Poll, Waited, wait_for_ready,
}
use promptfoo_eval_harness.AgentServer.Ready.Terminates.{wait_for_ready-returns}
use promptfoo_eval_harness.AgentServer.Daemon.{Pins, Attempt, exits_in_time, on_exit}
use promptfoo_eval_harness.AgentServer.Daemon.Books.{running}
use promptfoo_eval_harness.AgentServer.Daemon.Running.{
  Step, starting, stopping, take_steps, Kept, take_steps-Kept,
}

abbrev taken : Failure
taken = record { code = lit "EADDRINUSE"; message = lit "address in use" }

abbrev refused : Failure
refused = record { code = lit "ECONNREFUSED"; message = lit "connection refused" }

abbrev slow : Poll
slow = record { probe = λ k. errored refused; latency = λ k. 5 }

abbrev pins : Pins
pins = record {
  version = lit "1.0";
  sdk_version = lit "1.0";
  tools_version = lit "1.0";
  startup_timeout_ms = 1000;
  env_allowlist = [];
}

-- The first daemon finds its port taken, the second answers.
abbrev attempt_at : ℕ → Attempt
attempt_at n = elim n [
  | suc zero ↦ record {
    port = ok 8000;
    pid = 11;
    start = 0;
    poll = record { probe = λ k. errored taken; latency = λ k. 5 };
    stderr = [];
  }
  | _ ↦ record {
    port = ok 8001;
    pid = 12;
    start = 600;
    poll = record { probe = λ k. responded 200; latency = λ k. 5 };
    stderr = [];
  }
]

wait_for_ready-returns_example :
    (w : Waited) × (wait_for_ready slow 0 1000 ≡ some w) × (w.probes ≤ suc (1000 / 250))
wait_for_ready-returns_example = wait_for_ready-returns slow 0 1000

abbrev steps : List Step
steps = starting pins [] (lit "/r") attempt_at ∷ stopping exits_in_time ∷ []

take_steps-Kept_example :
    let after = take_steps steps (record { active = []; signals_installed = false }) in
    Kept (running [] after.0) after.1 × (running [] (after.0 ++ on_exit after.1) ≡ [])
take_steps-Kept_example = take_steps-Kept steps
