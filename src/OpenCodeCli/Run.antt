-- ===== src/OpenCodeCli/Run.antt =====
-- `runOpenCode`: one process, as the events that reach its listeners.
pub mod Settles
use promptfoo_eval_harness.Prelude.{
  ℕ, Bool, true, false, Option, none, some, List, [], ◌∷◌, ◌++◌, Str, lit, is_empty, trim, ◌==◌,
  if◌then◌else◌, Result, ok, err,
}
use promptfoo_eval_harness.Js.{decimal}

-- `closed none` is the end by a signal. An abort is heard only where a signal was passed, and only
-- once.
pub data Event : Type 0 where
  out_chunk err_chunk : List ℕ → Event
  failed : Str → Event
  aborted : Event
  closed : Option ℕ → Event

-- What the promise settles with, if it does, and whether the process was sent SIGTERM.
pub record Ended : Type 0 where
  pub settled : Option (Result Str Str)
  pub killed : Bool

-- The first one settles the promise; the later ones change nothing.
abbrev pub first_settled :
    Option (Result Str Str) → Option (Result Str Str) → Option (Result Str Str)
first_settled none later = later
first_settled (some result) later = some result

abbrev pub exit_text : Option ℕ → Str
exit_text none = lit "null"
exit_text (some code) = decimal code

abbrev pub is_zero : Option ℕ → Bool
is_zero none = false
is_zero (some code) = code == 0

-- `decode` is the decoding of UTF-8.
module _ (decode : List ℕ → Str) where
  unfoldable pub on_close : List ℕ → List ℕ → Option ℕ → Result Str Str
  on_close stdout stderr code =
      let error_output = trim (decode stderr) in
      if is_zero code
      then ok (decode stdout)
      else err (
          if is_empty error_output
          then lit "opencode exited with code " ++ exit_text code
          else error_output)

  -- Behind the close no abort is heard any more, and nothing else can change what is settled. The
  -- events in order, with what the two streams have brought and how the promise is settled.
  unfoldable pub listen : List ℕ → List ℕ → Option (Result Str Str) → Bool → List Event → Ended
  unfolding on_close
  listen stdout stderr settled killed [] = record { settled = settled; killed = killed }
  listen stdout stderr settled killed (out_chunk chunk ∷ events) =
      listen (stdout ++ chunk) stderr settled killed events
  listen stdout stderr settled killed (err_chunk chunk ∷ events) =
      listen stdout (stderr ++ chunk) settled killed events
  listen stdout stderr settled killed (failed message ∷ events) =
      listen stdout stderr (first_settled settled (some (err message))) killed events
  listen stdout stderr settled killed (aborted ∷ events) =
      listen stdout stderr (first_settled settled (some (err (lit "OpenCode CLI call aborted"))))
        true events
  listen stdout stderr settled killed (closed code ∷ events) = record {
    settled = first_settled settled (some (on_close stdout stderr code));
    killed = killed;
  }

  -- A call whose signal is aborted before it starts listens to nothing.
  unfoldable pub run_open_code : Bool → List Event → Ended
  unfolding listen
  run_open_code aborted_before events =
      if aborted_before
      then record { settled = some (err (lit "OpenCode CLI call aborted")); killed = true }
      else listen [] [] none false events
