-- ===== src/AgentServer/Ready/Terminates.antt =====
-- Every call of `waitForReady` comes to an end.
use promptfoo_eval_harness.Prelude.{
  ℕ, zero, suc, ◌+◌, ◌*◌, ◌/◌, ◌≤◌, ◌<◌, ◌≡◌, refl, Bool, true, false, Option, none, some, arith,
  ltb, if◌then◌else◌,
}
use promptfoo_eval_harness.AgentServer.Ready.{
  Failure, is_e_addr_in_use, is_ok, error_of, Poll, Waited, ended, ready, port_in_use, timed_out,
  wait_from, wait_for_ready,
}

-- A pass that ends the loop, or goes on with one that ends.
pass-returns :
    (early good taken : Bool) (probes most : ℕ) (last : Option Failure) (rest : Option Waited)
    → probes < most
    → (early ≡ true → (w : Waited) × (rest ≡ some w) × (w.probes ≤ most))
    → (w : Waited) × ((if early
          then if good
            then ended ready (suc probes)
            else if taken
            then ended port_in_use (suc probes)
            else rest
          else ended (timed_out last) probes)
        ≡ some w)
      × (w.probes ≤ most)
pass-returns false good taken probes most last rest h k = (_, refl, omega arith)
pass-returns true true taken probes most last rest h k = (_, refl, omega arith)
pass-returns true false true probes most last rest h k = (_, refl, omega arith)
pass-returns true false false probes most last rest h k = k refl

wait_from-returns :
    (poll : Poll) (deadline fuel probes now : ℕ) (last : Option Failure)
    → deadline ≤ now + 250 * fuel
    → (w : Waited) × (wait_from poll deadline (suc fuel) probes now last ≡ some w)
      × (w.probes ≤ probes + fuel)
unfolding wait_from
wait_from-returns poll deadline zero probes now last h =
    let late : ltb now deadline ≡ false = ground arith in rw late (_, refl, omega arith)
wait_from-returns poll deadline (suc fuel) probes now last h =
    let slept = now + (poll.latency probes + 250) in
    let result = poll.probe probes in
    pass-returns (ltb now deadline) (is_ok result) (is_e_addr_in_use (error_of result)) probes
      (probes + suc fuel) last
      (wait_from poll deadline (suc fuel) (suc probes) slept (error_of result)) (omega arith)
      (λ early.
        let enough : deadline ≤ slept + 250 * fuel = omega (arith, h) in
        let (w, e, most) =
          wait_from-returns poll deadline fuel (suc probes) slept (error_of result) enough in
        let bound : w.probes ≤ probes + suc fuel = omega (arith, most) in (w, e, bound))

-- A call ends, whatever the daemon answers and however long each answer takes: the daemon is ready,
-- its port is taken, or the time is up. It has been asked at most once for each interval that
-- begins within the time given.
pub wait_for_ready-returns :
    (poll : Poll) (start timeout_ms : ℕ)
    → (w : Waited) × (wait_for_ready poll start timeout_ms ≡ some w)
      × (w.probes ≤ suc (timeout_ms / 250))
unfolding wait_for_ready
wait_for_ready-returns poll start timeout_ms =
    let (w, e, most) =
      wait_from-returns poll (start + timeout_ms) (suc (timeout_ms / 250)) 0 start none
        (omega arith) in
    (w, e, omega arith)
