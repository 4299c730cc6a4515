-- ===== src/Bridge/Subprocess.antt =====
-- `_dispatch` for the kinds that run in a subprocess: init, the turns in order, finalize, and the
-- clean-up, with `_workspacePath`, `_ensureWorkspace` and `_cleanWorkspace`. The replies are what
-- `_ipcSend` settles with; time is what the clock measured. A throw before the workspace exists
-- (unreadable pins, a directory that cannot be made) is left out.
pub mod Account
pub mod Effects
use promptfoo_eval_harness.Prelude.{
  ℕ, zero, suc, ◌+◌, Bool, true, false, not, ◌&&◌, ◌||◌, Option, none, some, List, [], ◌∷◌, ◌++◌,
  Str, lit, str_eq, is_empty, length, if◌then◌else◌, Result, ok, err,
}
use promptfoo_eval_harness.Paths.{join}
use promptfoo_eval_harness.Js.{
  ℤ, pos, integer, Value, undefined, null, num, str, array, object, get, or_else, truthy, is_string,
  is_array, elements, text, lookup, put, entries, spread,
}
use promptfoo_eval_harness.Bridge.Runtime.{Runtime}
use promptfoo_eval_harness.Bridge.Report.{
  ProviderError, Base, Config, Report, Progress, no_progress, normalize_err, base_metadata,
  join_outputs, push_turn, error_return, invalid_input,
}
use promptfoo_eval_harness.Bridge.Turns.{usable_turns}
use promptfoo_eval_harness.Bridge.Ipc.{Reply, received, rejected}

-- A row as Promptfoo hands it over, and the environment of the process.
pub record Row : Type 0 where
  pub cfg : Config
  pub turns : Value
  pub prompt : Value
  pub row_case_id : Value
  pub run_id : Str
  pub keep_workspace : Str

pub record World : Type 0 where
  pub spawned : Result Value (Unit {0})
  pub on_init : Reply
  pub on_turn : ℕ → Reply
  pub on_finalize : Reply
  pub latency : ℕ → ℕ
  pub total : ℕ

pub data Message : Type 0 where
  send_init : Config → Message
  send_turn : ℕ → Value → Value → Message
  send_finalize : Value → Message

pub data Effect : Type 0 where
  made removed : Str → Effect
  started shut_down : Effect
  sent : Message → Effect

-- `runId || '_default'`
abbrev or_default : Str → Str
or_default s = if is_empty s then lit "_default" else s

unfoldable pub workspace_path : Str → Str → Str
workspace_path run_id case_id = join (
    lit "tests"
    ∷ lit "evals"
    ∷ lit ".tmp"
    ∷ lit "workspaces"
    ∷ or_default run_id
    ∷ or_default case_id
    ∷ [])

-- `cfg.case_id || context?.vars?.case_id || ''`, a text wherever the harness sets it
abbrev pub case_of : Row → Str
case_of row = text (or_else (lookup (lit "case_id") row.cfg) (or_else row.row_case_id (str [])))

abbrev pub workspace_of : Row → Str
workspace_of row = workspace_path row.run_id (case_of row)

-- A workspace that the configuration names is not made here.
abbrev pub has_own_workspace : Row → Bool
has_own_workspace row =
    let v = lookup (lit "workspace_root") row.cfg in is_string v && not (is_empty (text v))

unfoldable pub workspace_dir : Row → Str
workspace_dir row =
    if has_own_workspace row then text (lookup (lit "workspace_root") row.cfg) else workspace_of row

unfoldable pub ensure_workspace : Row → List Effect
ensure_workspace row = if has_own_workspace row then [] else made (workspace_of row) ∷ []

unfoldable pub clean_workspace : Row → List Effect
clean_workspace row =
    if str_eq row.keep_workspace (lit "1") || str_eq row.keep_workspace (lit "true")
    then []
    else removed (workspace_of row) ∷ []

unfoldable pub cfg_with_workspace : Row → ℕ → Config
cfg_with_workspace row turns =
    put (lit "extra")
      (object (
        put (lit "total_turns") (num (integer (pos turns)))
          (entries (or_else (lookup (lit "extra") row.cfg) (object [])))))
      (put (lit "workspace_root") (str (workspace_dir row)) row.cfg)

abbrev pub is_nullish : Value → Bool
is_nullish undefined = true
is_nullish null = true
is_nullish _ = false

-- `v.type === 'error'`
abbrev pub is_error : Value → Bool
is_error v = let type = get (lit "type") v in is_string type && str_eq (text type) (lit "error")

-- A report with the messages that were sent.
abbrev pub Told : Type 0
Told = Report × List Message

-- One turn of the loop: what is sent, and the rest of the loop if the turn completed.
unfoldable pub carry_on :
    Message → (Value → Progress → Told) → Result Report (Value × Progress) → Told
carry_on m next (err report) = (report, m ∷ [])
carry_on m next (ok (resp, p)) = let rest = next resp p in (rest.0, m ∷ rest.1)

module _ (rt : Runtime) (base : Base) (world : World) where
  -- The `catch` with no turn under way.
  unfoldable pub caught : Value → Progress → Report
  caught e p = error_return rt base (normalize_err rt e) p (length p.outputs) world.total

  abbrev pub timed : Progress → ℕ → Progress
  timed p i = record p { latencies = p.latencies ++ world.latency i ∷ [] }

  -- The `catch` while a turn is under way.
  unfoldable pub caught_in_turn : Value → ℕ → Value → Progress → Report
  caught_in_turn e i turn p =
      let err = normalize_err rt e in
      error_return rt base err
        (push_turn (timed p i) i turn (str []) (world.latency i) (array []) (some err))
        (length p.outputs) world.total

  -- `outputs.concat(v)`: an array is taken apart.
  abbrev concat_output : List Value → Value → List Value
  concat_output outputs v = outputs ++ (if is_array v then elements v else v ∷ [])

  -- A turn that the subprocess answers with an error.
  unfoldable pub failed_turn : Value → ℕ → Value → Progress → Report
  failed_turn resp i turn p =
      let result = get (lit "result") resp in
      let err = normalize_err rt (or_else (get (lit "error") resp) (get (lit "error") result)) in
      let partial = or_else (get (lit "text") resp) (or_else (get (lit "text") result) (str [])) in
      let calls = or_else (get (lit "tool_calls") resp) (get (lit "tool_calls") result) in
      let p' = push_turn p i turn partial (world.latency i) calls (some err) in
      record {
        output = str (join_outputs rt (concat_output p.outputs partial));
        error = some err.message;
        base = base;
        inherited = undefined;
        provider_error = some err;
        turns_completed = i;
        final_turn_output = partial;
        transcript = p'.transcript;
        latency_ms_per_turn = p.latencies;
        latency_ms_total = world.total;
        final = none;
      }

  unfoldable pub completed_turn : Value → ℕ → Value → Progress → Progress
  completed_turn resp i turn p =
      let text = or_else (get (lit "text") resp) (str []) in
      let calls = or_else (get (lit "tool_calls") resp) (array []) in
      push_turn (record p { outputs = p.outputs ++ text ∷ [] }) i turn text (world.latency i) calls
        none

  unfoldable pub succeeded : Value → Value → ℕ → Progress → Report
  succeeded last final turns p = record {
    output = str (join_outputs rt p.outputs);
    error = none;
    base = base;
    inherited = undefined;
    provider_error = none;
    turns_completed = turns;
    final_turn_output = or_else (get (lit "text") last) (str []);
    transcript = p.transcript;
    latency_ms_per_turn = p.latencies;
    latency_ms_total = world.total;
    final = some (record {
      cost_usd = or_else (get (lit "cost_usd") final) null;
      tokens = or_else (get (lit "tokens") final) (object []);
      transcript_summary = or_else (get (lit "transcript_summary") final) (str []);
    });
  }

  unfoldable pub finish : Reply → Value → ℕ → Progress → Report
  finish (rejected e) last turns p = caught e p
  finish (received final) last turns p =
      if is_nullish final then caught rt.null_read p else succeeded last final turns p

  -- What the reply to turn `i` leads to: a report that ends the call, or the progress behind it.
  unfoldable pub take_reply : Reply → ℕ → Value → Progress → Result Report (Value × Progress)
  take_reply (rejected e) i turn p = err (caught_in_turn e i turn p)
  take_reply (received resp) i turn p =
      let p' = timed p i in
      if is_nullish resp
      then err (caught rt.null_read p')
      else if is_error resp || truthy (get (lit "error") resp)
      then err (failed_turn resp i turn p')
      else ok (resp, completed_turn resp i turn p')

  -- The loop over the turns left, from turn `i` on; `n` is the number of all turns.
  unfoldable pub run_turns : Value → ℕ → ℕ → Value → Progress → List Value → Told
  run_turns session n i last p [] = (finish world.on_finalize last n p, send_finalize session ∷ [])
  run_turns session n i last p (turn ∷ turns) =
      carry_on (send_turn i session turn) (λ resp p'. run_turns session n (suc i) resp p' turns)
        (take_reply (world.on_turn i) i turn p)

  unfoldable pub start : Reply → List Value → Told
  start (rejected e) turns = (caught e no_progress, [])
  start (received v) turns =
      if is_nullish v
      then (caught rt.null_read no_progress, [])
      else if is_error v
      then (
        error_return rt base (normalize_err rt (get (lit "error") v)) no_progress 0 world.total,
        [],
      )
      else run_turns (get (lit "session_id") v) (length turns) 0 null no_progress turns

  unfoldable pub run_session : Config → List Value → Told
  unfolding start
  run_session cfg turns = let told = start world.on_init turns in (told.0, send_init cfg ∷ told.1)

abbrev pub sends : List Message → List Effect
sends [] = []
sends (m ∷ ms) = sent m ∷ sends ms

pub record Outcome : Type 0 where
  pub report : Report
  pub effects : List Effect

-- The `try` and its `finally`, from what the spawn did.
unfoldable pub run_spawned : Runtime → Row → World → Result Value (Unit {0}) → List Value → Outcome
run_spawned rt row world (err e) turns = record {
  report = caught rt (base_metadata row.cfg (str row.run_id)) world e no_progress;
  effects = ensure_workspace row ++ clean_workspace row;
}
run_spawned rt row world (ok _) turns =
    let base = base_metadata row.cfg (str row.run_id) in
    let told = run_session rt base world (cfg_with_workspace row (length turns)) turns in
    record {
      report = told.0;
      effects =
          ensure_workspace row ++ ((started ∷ sends told.1) ++ (shut_down ∷ clean_workspace row));
    }

unfoldable pub dispatch_turns : Runtime → Row → World → List Value → Outcome
unfolding run_spawned
dispatch_turns rt row world turns = run_spawned rt row world world.spawned turns

unfoldable pub dispatch_subprocess : Runtime → Row → World → Outcome
dispatch_subprocess rt row world = elim (usable_turns rt row.turns row.prompt) [
  | none ↦ record {
    report =
        invalid_input (base_metadata row.cfg (str row.run_id)) (lit "vars.turns is empty")
          world.total;
    effects = [];
  }
  | some turns ↦ dispatch_turns rt row world turns
]
