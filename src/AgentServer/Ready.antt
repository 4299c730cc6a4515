-- ===== src/AgentServer/Ready.antt =====
-- `waitForReady`: polling the daemon until it answers, its port turns out to be taken, or the time
-- is up. The clock and the answers are those of one call.
pub mod Terminates
use promptfoo_eval_harness.Prelude.{
  ℕ, zero, suc, ◌+◌, ◌/◌, Bool, true, false, ◌&&◌, ◌||◌, Option, none, some, List, [], ◌∷◌, Str,
  lit, str_eq, starts_with, leb, ltb, if◌then◌else◌,
}

-- An error: its code, empty if it has none, and the text of `err.message || err`.
pub record Failure : Type 0 where
  pub code : Str
  pub message : Str

-- `s.includes(t)`
unfoldable pub contains : Str → Str → Bool
contains [] t = starts_with [] t
contains (c ∷ s) t = starts_with (c ∷ s) t || contains s t

unfoldable pub is_e_addr_in_use : Option Failure → Bool
is_e_addr_in_use none = false
is_e_addr_in_use (some e) =
    if str_eq e.code (lit "EADDRINUSE")
    then true
    else contains e.message (lit "EADDRINUSE") || contains e.message (lit "Address already in use")

-- What `_probeOnce` gives: a response with a status, or an error.
pub data Probed : Type 0 where
  responded : ℕ → Probed
  errored : Failure → Probed

abbrev pub is_ok : Probed → Bool
is_ok (responded status) = leb 200 status && ltb status 300
is_ok (errored e) = false

abbrev pub error_of : Probed → Option Failure
error_of (responded status) = none
error_of (errored e) = some e

-- The probes of a call, numbered from 0, each with the time that it and what exceeds the sleep take.
pub record Poll : Type 0 where
  pub probe : ℕ → Probed
  pub latency : ℕ → ℕ

abbrev pub readiness_poll_interval_ms : ℕ
readiness_poll_interval_ms = 250

-- How a call ends; a timeout names the last error.
pub data End : Type 0 where
  ready port_in_use : End
  timed_out : Option Failure → End

-- With the number of probes.
pub record Waited : Type 0 where
  pub end : End
  pub probes : ℕ

abbrev pub ended : End → ℕ → Option Waited
ended end probes = some (record { end = end; probes = probes })

module _ (poll : Poll) (deadline : ℕ) where
  -- The loop, at a time and with the last error; `none` where the fuel does not suffice.
  unfoldable pub wait_from : ℕ → ℕ → ℕ → Option Failure → Option Waited
  wait_from zero probes now last = none
  wait_from (suc fuel) probes now last =
      let result = poll.probe probes in
      let slept = now + (poll.latency probes + readiness_poll_interval_ms) in
      let rest = wait_from fuel (suc probes) slept (error_of result) in
      if ltb now deadline
      then if is_ok result
        then ended ready (suc probes)
        else if is_e_addr_in_use (error_of result)
        then ended port_in_use (suc probes)
        else rest
      else ended (timed_out last) probes

-- One more pass than there are intervals, and one for the last look at the clock.
abbrev pub passes : ℕ → ℕ
passes timeout_ms = suc (suc (timeout_ms / readiness_poll_interval_ms))

unfoldable pub wait_for_ready : Poll → ℕ → ℕ → Option Waited
unfolding wait_from
wait_for_ready poll start timeout_ms =
    wait_from poll (start + timeout_ms) (passes timeout_ms) 0 start none
