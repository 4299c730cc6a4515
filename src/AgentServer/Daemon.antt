-- ===== src/AgentServer/Daemon.antt =====
-- `startAgentServerDaemon`, `stopAgentServerDaemon`, the signal handlers, and the environment of the
-- daemon.
pub mod Books
pub mod Running
use promptfoo_eval_harness.Prelude.{
  ℕ, zero, suc, ◌+◌, ◌-◌, Bool, true, false, ◌&&◌, Option, none, some, List, [], ◌∷◌, ◌++◌, map,
  length, Str, lit, is_empty, ltb, ◌==◌, if◌then◌else◌, Result, ok, err,
}
use promptfoo_eval_harness.Js.{Value, str, lookup, put, is_undefined, decimal}
use promptfoo_eval_harness.AgentServer.Ready.{
  Failure, is_e_addr_in_use, Poll, End, ready, port_in_use, timed_out, Waited, wait_for_ready,
}

-- What sdk-pins.js reads for the daemon.
pub record Pins : Type 0 where
  pub version : Str
  pub sdk_version : Str
  pub tools_version : Str
  pub startup_timeout_ms : ℕ
  pub env_allowlist : List Str

abbrev pub copy_keys : List (Str × Value) → List Str → List (Str × Value) → List (Str × Value)
copy_keys env [] copied = copied
copy_keys env (key ∷ keys) copied =
    let v = lookup key env in
    let rest = copy_keys env keys (put key v copied) in
    let skipped = copy_keys env keys copied in if is_undefined v then skipped else rest

unfoldable pub build_child_env : List (Str × Value) → List Str → List (Str × Value)
build_child_env env allowlist =
    put (lit "OPENHANDS_SUPPRESS_BANNER") (str (lit "1"))
      (copy_keys env ((lit "PATH" ∷ lit "HOME" ∷ lit "TMPDIR" ∷ lit "LANG" ∷ []) ++ allowlist) [])

unfoldable pub argv_of : Pins → ℕ → List Str
argv_of pins port =
    lit "--with"
    ∷ lit "libtmux"
    ∷ lit "--with"
    ∷ (lit "openhands-sdk==" ++ pins.sdk_version)
    ∷ lit "--with"
    ∷ (lit "openhands-tools==" ++ pins.tools_version)
    ∷ lit "--from"
    ∷ (lit "openhands-agent-server==" ++ pins.version)
    ∷ lit "agent-server"
    ∷ lit "--host"
    ∷ lit "127.0.0.1"
    ∷ lit "--port"
    ∷ decimal port
    ∷ []

abbrev pub url_of : ℕ → Str
url_of port = lit "http://127.0.0.1:" ++ decimal port

-- One attempt: the port or what the allocation is rejected with, the process that is spawned, when
-- the waiting for it starts and how that goes, and what the process has written to its stderr.
pub record Attempt : Type 0 where
  pub port : Result Failure ℕ
  pub pid : ℕ
  pub start : ℕ
  pub poll : Poll
  pub stderr : Str

pub record Handle : Type 0 where
  pub port : ℕ
  pub pid : ℕ
  pub eval_root : Str

-- `exhausted` is the error behind the loop, and `unfinished` stands for a wait that does not end.
pub data Error : Type 0 where
  already_running exhausted unfinished : Error
  no_port : Failure → Error
  failed_start : Failure → Error

-- Signals go to the process group. A process is gone when it is killed or is seen to have exited.
pub data Effect : Type 0 where
  spawned : ℕ → List Str → List (Str × Value) → Effect
  terminated killed saw_exit : ℕ → Effect
  flushed_log : Str → Effect

-- `ACTIVE_HANDLES` and `SIGNALS_INSTALLED`.
pub record State : Type 0 where
  pub active : List Handle
  pub signals_installed : Bool

-- `ACTIVE_HANDLES.delete(handle)`; a handle is known by its process.
abbrev pub delete : ℕ → List Handle → List Handle
delete pid [] = []
delete pid (h ∷ handles) = if h.pid == pid then handles else h ∷ delete pid handles

abbrev pub without : ℕ → State → State
without pid state = record {
  active = delete pid (state.active);
  signals_installed = state.signals_installed;
}

-- `ACTIVE_HANDLES.add(handle)`, behind `_installSignalsOnce()`.
abbrev pub adding : Handle → State → State
adding handle state = record { active = handle ∷ state.active; signals_installed = true }

-- `s.slice(-n)` and `s.slice(s.length - n)`, for `n` of at least 1.
unfoldable pub drop : ℕ → Str → Str
drop zero s = s
drop (suc n) [] = []
drop (suc n) (c ∷ s) = drop n s

unfoldable pub tail_of : ℕ → Str → Str
unfolding drop
tail_of n s = drop (length s - n) s

-- The buffer of a stream after another chunk.
unfoldable pub ring_append : Str → Str → Str
unfolding tail_of
ring_append buffer chunk =
    let longer = buffer ++ chunk in
    if ltb 102400 (length longer) then tail_of 102400 longer else longer

abbrev pub last_error_text : Option Failure → Str
last_error_text none = []
last_error_text (some e) = lit " (last error: " ++ (e.message ++ lit ")")

-- What `waitForReady` throws, if it does.
unfoldable pub failure_of : Str → ℕ → End → Option Failure
failure_of url timeout_ms ready = none
failure_of url timeout_ms port_in_use = some (record {
  code = lit "EADDRINUSE";
  message = lit "agent-server readiness failed: EADDRINUSE on " ++ (url ++ lit "/health");
})
failure_of url timeout_ms (timed_out last) = some (record {
  code = lit "READINESS_TIMEOUT";
  message =
      lit "agent-server readiness timed out after "
      ++ (decimal timeout_ms ++ (lit "ms at " ++ (url ++ (lit "/health" ++ last_error_text last))));
})

abbrev pub enriched : Failure → Str → Failure
enriched e stderr = record {
  code = if is_empty (e.code) then lit "AGENT_SERVER_START_FAILED" else e.code;
  message =
      lit "agent-server failed to start: "
      ++ (e.message
          ++ (if is_empty (tail_of 2048 stderr)
              then []
              else 10 ∷ (lit "--- stderr tail ---" ++ (10 ∷ tail_of 2048 stderr))));
}

-- What is done, what is returned or thrown, and the state afterwards.
abbrev pub Outcome : Type 0
Outcome = (List Effect × Result Error Handle) × State

abbrev pub before : List Effect → Outcome → Outcome
before effects ((later, result), state) = ((effects ++ later, result), state)

-- `pins.startup_timeout_ms || 30_000`
abbrev pub timeout_of : Pins → ℕ
timeout_of pins = if pins.startup_timeout_ms == 0 then 30000 else pins.startup_timeout_ms

module _ (pins : Pins) (env : List (Str × Value)) (eval_root : Str) (attempt_at : ℕ → Attempt) where
  abbrev pub handle_at : ℕ → ℕ → Handle
  handle_at attempt port = record {
    port = port;
    pid = (attempt_at attempt).pid;
    eval_root = eval_root;
  }

  -- The handler of what `waitForReady` throws; `again` is the next attempt.
  unfoldable pub catch_failure : ℕ → State → Failure → (State → Outcome) → Outcome
  catch_failure attempt state e again =
      let pid = (attempt_at attempt).pid in
      let left = without pid state in
      if is_e_addr_in_use (some e) && attempt == 1
      then before (killed pid ∷ []) (again left)
      else ((killed pid ∷ [], err (failed_start (enriched e ((attempt_at attempt).stderr)))), left)

  unfoldable pub after_wait : ℕ → ℕ → State → Option Waited → (State → Outcome) → Outcome
  unfolding catch_failure
  after_wait attempt port state none again = (([], err unfinished), state)
  after_wait attempt port state (some waited) again =
      elim (failure_of (url_of port) (timeout_of pins) (waited.end)) [
        | none ↦ (([], ok (handle_at attempt port)), state)
        | some e ↦ catch_failure attempt state e again
      ]

  unfoldable pub on_port : ℕ → State → Result Failure ℕ → (State → Outcome) → Outcome
  unfolding after_wait
  on_port attempt state (err e) again = (([], err (no_port e)), state)
  on_port attempt state (ok port) again =
      let a = attempt_at attempt in
      let added = adding (handle_at attempt port) state in
      before (spawned (a.pid) (argv_of pins port) (build_child_env env (pins.env_allowlist)) ∷ [])
        (after_wait attempt port added (wait_for_ready (a.poll) (a.start) (timeout_of pins)) again)

  -- The loop, with the number of attempts that are left.
  unfoldable pub attempt_from : ℕ → ℕ → State → Outcome
  unfolding on_port
  attempt_from attempt zero state = (([], err exhausted), state)
  attempt_from attempt (suc left) state =
      on_port attempt state ((attempt_at attempt).port) (attempt_from (suc attempt) left)

  unfoldable pub start_agent_server_daemon : State → Outcome
  unfolding attempt_from
  start_agent_server_daemon state =
      if ltb 0 (length (state.active))
      then (([], err already_running), state)
      else attempt_from 1 2 state

-- What a stop finds: a process that exited before, one that exits on SIGTERM, or one that has to be
-- killed.
pub data Stopping : Type 0 where
  exited_before exits_in_time : Stopping
  has_to_be_killed : Stopping

abbrev pub flush : Handle → List Effect
flush handle = if is_empty (handle.eval_root) then [] else flushed_log (handle.eval_root) ∷ []

unfoldable pub stop_effects : Stopping → Handle → List Effect
stop_effects exited_before handle = saw_exit (handle.pid) ∷ []
stop_effects exits_in_time handle = terminated (handle.pid) ∷ saw_exit (handle.pid) ∷ flush handle
stop_effects has_to_be_killed handle = terminated (handle.pid) ∷ killed (handle.pid) ∷ flush handle

unfoldable pub stop_agent_server_daemon : Stopping → Handle → State → List Effect × State
unfolding stop_effects
stop_agent_server_daemon stopping handle state =
    (stop_effects stopping handle, without (handle.pid) state)

-- The handler of `exit`, and of an uncaught exception before the process ends.
unfoldable pub on_exit : State → List Effect
on_exit state = if state.signals_installed then map (λ h. killed (h.pid)) (state.active) else []

-- The handlers of SIGINT and SIGTERM before the signal is raised again.
unfoldable pub on_signal : State → List Effect
on_signal state =
    if state.signals_installed then map (λ h. terminated (h.pid)) (state.active) else []
