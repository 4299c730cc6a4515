-- ===== src/Bridge/Call.antt =====
-- `callApi`: the configuration, the kind's entry in KIND_REGISTRY, and the dispatch, with the
-- branch for `opencode_cli`. The registry is an object literal, so a name that every object
-- inherits finds something there too.
pub mod Dispatch
use promptfoo_eval_harness.Prelude.{
  ℕ, zero, suc, ◌+◌, Bool, true, false, ◌||◌, Option, none, some, List, [], ◌∷◌, ◌++◌, Str, lit,
  str_eq, includes, if◌then◌else◌, Result, ok, err,
}
use promptfoo_eval_harness.Js.{
  Value, undefined, null, str, array, get, or_else, truthy, text, lookup,
}
use promptfoo_eval_harness.Bridge.Runtime.{Runtime}
use promptfoo_eval_harness.Bridge.Report.{
  ProviderError, Base, Config, Report, Progress, no_progress, normalize_err, base_metadata,
  push_turn, error_return, invalid_input,
}
use promptfoo_eval_harness.Bridge.Turns.{parse_provider_config, usable_turns}
use promptfoo_eval_harness.Bridge.Subprocess.{Row, World, Effect, dispatch_subprocess}
use promptfoo_eval_harness.Bridge.Subprocess
use promptfoo_eval_harness.Bridge.Inproc.{Provider, InprocEffect, dispatch_inproc}
use promptfoo_eval_harness.Bridge.Inproc

pub data Mode : Type 0 where
  cli inproc subprocess : Mode
  inherited : Mode

abbrev pub registry : List (Str × Mode)
registry =
    (lit "opencode_cli", cli)
    ∷ (lit "openhands_sdk", subprocess)
    ∷ (lit "claude_agent_sdk", subprocess)
    ∷ (lit "opencode_sdk", inproc)
    ∷ (lit "codex_sdk", inproc)
    ∷ []

-- The properties of `Object.prototype`.
abbrev pub inherited_names : List Str
inherited_names =
    lit "constructor"
    ∷ lit "hasOwnProperty"
    ∷ lit "isPrototypeOf"
    ∷ lit "propertyIsEnumerable"
    ∷ lit "toLocaleString"
    ∷ lit "toString"
    ∷ lit "valueOf"
    ∷ lit "__proto__"
    ∷ lit "__defineGetter__"
    ∷ lit "__defineSetter__"
    ∷ lit "__lookupGetter__"
    ∷ lit "__lookupSetter__"
    ∷ []

unfoldable pub own_mode : List (Str × Mode) → Str → Option Mode
own_mode [] kind = none
own_mode ((k, m) ∷ entries) kind = if str_eq k kind then some m else own_mode entries kind

-- `KIND_REGISTRY[kind]`
unfoldable pub mode_of : Str → Option Mode
mode_of kind = elim (own_mode registry kind) [
  | some m ↦ some m
  | none ↦ if includes inherited_names kind then some inherited else none
]

-- What the wrapped command-line provider answers; it returns an object whenever it returns.
pub record Cli : Type 0 where
  pub answer : Result Value Value
  pub latency : ℕ
  pub total : ℕ

abbrev pub multi_turn_error : ProviderError
multi_turn_error = record {
  code = str (lit "validation");
  message = str (lit "multi-turn not supported by opencode_cli in v1.0.0");
  retryable = false;
}

-- An entry with the error for each turn.
unfoldable pub refuse_turns : ℕ → List Value → Progress → Progress
refuse_turns i [] p = p
refuse_turns i (turn ∷ turns) p =
    refuse_turns (suc i) turns (push_turn p i turn (str []) 0 (array []) (some multi_turn_error))

module _ (rt : Runtime) (base : Base) (c : Cli) where
  unfoldable pub run_cli : Result Value Value → Value → Report
  run_cli (err e) turn =
      let error = normalize_err rt e in
      error_return rt base error
        (push_turn (record no_progress { latencies = c.latency ∷ [] }) 0 turn (str []) c.latency
          (array []) (some error))
        0 c.total
  run_cli (ok res) turn =
      let failed = truthy (get (lit "error") res) in
      let error = normalize_err rt (get (lit "error") res) in
      let output = or_else (get (lit "output") res) (str []) in
      let calls = get (lit "tool_calls") (get (lit "metadata") res) in
      let p =
        push_turn no_progress 0 turn output c.latency calls (if failed then some error else none) in
      record {
        output = if failed then output else get (lit "output") res;
        error = if failed then some error.message else none;
        base = base;
        inherited = get (lit "metadata") res;
        provider_error = if failed then some error else none;
        turns_completed = if failed then 0 else 1;
        final_turn_output = output;
        transcript = p.transcript;
        latency_ms_per_turn = c.latency ∷ [];
        latency_ms_total = c.total;
        final = none;
      }

  unfoldable pub dispatch_cli : Option (List Value) → Report
  unfolding run_cli refuse_turns
  dispatch_cli (some (turn ∷ [])) = run_cli c.answer turn
  dispatch_cli (some (turn ∷ next ∷ turns)) = record {
    output = str [];
    error = some multi_turn_error.message;
    base = base;
    inherited = undefined;
    provider_error = some multi_turn_error;
    turns_completed = 0;
    final_turn_output = str [];
    transcript = (refuse_turns 0 (turn ∷ next ∷ turns) no_progress).transcript;
    latency_ms_per_turn = [];
    latency_ms_total = c.total;
    final = none;
  }
  dispatch_cli _ =
      invalid_input base (lit "no turns to send: vars.turns is empty and prompt is missing/empty")
        c.total

-- What stands outside the bridge during one call.
pub record Env : Type 0 where
  pub cli : Cli
  pub provider : Provider
  pub world : World

pub data Answer : Type 0 where
  bad_provider_config : ProviderError → Answer
  unsupported_kind : Str → Answer
  by_cli : Report → Answer
  by_inproc : Inproc.Outcome → Answer
  by_subprocess : Subprocess.Outcome → Answer

-- An inherited entry has no `mode`, so it is taken for a subprocess.
unfoldable pub dispatch : Runtime → Env → Row → List Str → Str → Mode → Answer
dispatch rt env row cache kind cli = by_cli (
    dispatch_cli rt (base_metadata row.cfg (str row.run_id)) env.cli
      (usable_turns rt row.turns row.prompt))
dispatch rt env row cache kind inproc = by_inproc (dispatch_inproc rt row env.provider kind cache)
dispatch rt env row cache kind subprocess = by_subprocess (dispatch_subprocess rt row env.world)
dispatch rt env row cache kind inherited = by_subprocess (dispatch_subprocess rt row env.world)

unfoldable pub call_kind : Runtime → Env → Row → List Str → Str → Answer
unfolding dispatch
call_kind rt env row cache kind = elim (mode_of kind) [
  | none ↦ unsupported_kind kind
  | some mode ↦ dispatch rt env row cache kind mode
]

-- The row's own configuration is what parsing `options` gives. The gate that every call passes
-- delays it and changes nothing of it; a gate that cannot be made, on a bad
-- AD_EVALS_MAX_CONCURRENCY, is left out.
unfoldable pub call_api : Runtime → Env → Row → List Str → Value → Answer
unfolding call_kind
call_api rt env row cache options =
    elim (parse_provider_config (or_else (get (lit "config") options) options)) [
      | err e ↦ bad_provider_config (normalize_err rt e)
      | ok cfg ↦
          call_kind rt env (record row { cfg = cfg }) cache
            (text (lookup (lit "provider_kind") cfg))
    ]
