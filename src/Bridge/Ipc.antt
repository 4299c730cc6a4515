-- ===== src/Bridge/Ipc.antt =====
-- `_ipcSend`: one message to the subprocess and the first event that settles its promise.
pub mod Lines
use promptfoo_eval_harness.Prelude.{
  ℕ, Bool, true, false, Option, none, some, List, [], ◌∷◌, ◌++◌, Str, lit, ◌==◌, is_blank,
  if◌then◌else◌,
}
use promptfoo_eval_harness.Js.{Value, bool, str, object}
use promptfoo_eval_harness.Bridge.Runtime.{Runtime}

-- What happens while the reply is awaited: a chunk of the subprocess's output, the end of it, the
-- timer. A failed write settles before any of them.
pub data Event : Type 0 where
  chunk : Str → Event
  closed expired : Event

pub data Reply : Type 0 where
  received : Value → Reply
  rejected : Value → Reply

abbrev pub ipc_error : Str → Str → Value
ipc_error code message =
    object
      ((lit "message", str message) ∷ (lit "code", str code) ∷ (lit "retryable", bool true) ∷ [])

abbrev pub malformed : Str → Value
malformed line =
    ipc_error (lit "SUBPROCESS_CRASH") (lit "Malformed NDJSON from subprocess: " ++ line)

abbrev pub closed_early : Value
closed_early = ipc_error (lit "SUBPROCESS_CRASH") (lit "subprocess stdout closed unexpectedly")

-- `chunk.toString().split('\n')[0]`
unfoldable pub first_line : Str → Str
first_line [] = []
first_line (c ∷ s) = if c == 10 then [] else c ∷ first_line s

module _ (rt : Runtime) (timeout : Value) where
  unfoldable pub parse_line : Str → Reply
  parse_line line = elim (rt.json_parse line) [
    | none ↦ rejected (malformed line)
    | some v ↦ received v
  ]

  -- `none`: the promise is still pending when the events end.
  unfoldable pub settle : List Event → Option Reply
  unfolding parse_line first_line
  settle [] = none
  settle (chunk text ∷ events) =
      if is_blank (first_line text) then settle events else some (parse_line (first_line text))
  settle (closed ∷ events) = some (rejected closed_early)
  settle (expired ∷ events) = some (rejected timeout)

  -- `written` is the message of the error that the write threw, if it threw.
  unfoldable pub ipc_send : Option Str → List Event → Option Reply
  unfolding settle
  ipc_send (some failure) events = some (
      rejected (
        ipc_error (lit "SUBPROCESS_CRASH")
          (lit "Failed to write to subprocess stdin: " ++ failure)))
  ipc_send none events = settle events
