-- ===== src/Bridge/Inproc.antt =====
-- `_dispatchInproc`: the same session with a provider module in the process. The module's provider
-- is made once for each kind and kept in `_inprocProviderCache`; what it answers is the `Provider`.
pub mod Account
use promptfoo_eval_harness.Prelude.{
  ℕ, zero, suc, ◌+◌, Bool, true, false, not, ◌&&◌, ◌||◌, Option, none, some, List, [], ◌∷◌, ◌++◌,
  Str, lit, str_eq, includes, length, if◌then◌else◌, Result, ok, err,
}
use promptfoo_eval_harness.Js.{
  Value, undefined, null, str, array, object, get, or_else, truthy, put,
}
use promptfoo_eval_harness.Bridge.Runtime.{Runtime}
use promptfoo_eval_harness.Bridge.Report.{
  ProviderError, Base, Config, Report, Progress, no_progress, normalize_err, base_metadata,
  join_outputs, push_turn, error_return, invalid_input,
}
use promptfoo_eval_harness.Bridge.Turns.{usable_turns}
use promptfoo_eval_harness.Bridge.Subprocess.{
  Row, Effect, made, removed, workspace_dir, ensure_workspace, clean_workspace, is_nullish,
}

-- Loading a module and calling its factory.
pub data Loaded : Type 0 where
  load_failed factory_failed : Value → Loaded
  no_factory loaded : Loaded

pub record Provider : Type 0 where
  pub loading : Loaded
  pub module_path : Str
  pub on_init : Result Value Value
  pub on_turn : ℕ → Result Value Value
  pub on_finalize : Result Value Value
  pub has_shutdown : Bool
  pub latency : ℕ → ℕ
  pub total : ℕ

pub data InprocEffect : Type 0 where
  workspace : Effect → InprocEffect
  opened closed : InprocEffect

abbrev workspace_effects : List Effect → List InprocEffect
workspace_effects [] = []
workspace_effects (e ∷ es) = workspace e ∷ workspace_effects es

abbrev pub ensured : Row → List InprocEffect
ensured row = workspace_effects (ensure_workspace row)

abbrev pub cleaned : Row → List InprocEffect
cleaned row = workspace_effects (clean_workspace row)

module _ (rt : Runtime) (base : Base) (provider : Provider) where
  unfoldable pub fail : Value → ℕ → Progress → Report
  fail e completed p = error_return rt base (normalize_err rt e) p completed provider.total

  -- The latency and the entry of a turn that threw or returned an error.
  unfoldable pub failed_turn : Value → Value → Value → ℕ → Value → Progress → Report
  failed_turn e output tool_calls i turn p =
      let err = normalize_err rt e in
      error_return rt base err
        (push_turn (record p { latencies = p.latencies ++ provider.latency i ∷ [] }) i turn output
          (provider.latency i) tool_calls (some err))
        i provider.total

  unfoldable pub completed_turn : Value → ℕ → Value → Progress → Progress
  completed_turn res i turn p =
      let text = or_else (get (lit "output") res) (str []) in
      push_turn
        (record p {
          outputs = p.outputs ++ text ∷ [];
          latencies = p.latencies ++ provider.latency i ∷ [];
        })
        i turn text (provider.latency i) (or_else (get (lit "tool_calls") res) (array [])) none

  -- What awaiting a turn leads to: a report that ends the call, or the progress behind it.
  unfoldable pub take_turn :
      Result Value Value → ℕ → Value → Progress → Result Report (Value × Progress)
  take_turn (err e) i turn p = err (failed_turn e (str []) (array []) i turn p)
  take_turn (ok res) i turn p =
      if truthy (get (lit "error") res)
      then err (
          failed_turn (get (lit "error") res) (or_else (get (lit "output") res) (str []))
            (or_else (get (lit "tool_calls") res) (array [])) i turn p)
      else ok (res, completed_turn res i turn p)

  -- `x != null ? x : null`
  abbrev null_if_nullish : Value → Value
  null_if_nullish v = if is_nullish v then null else v

  unfoldable pub finish : Result Value Value → Value → ℕ → Progress → Report
  finish (err e) last n p = fail e n p
  finish (ok result) last n p =
      let meta = or_else (get (lit "metadata") result) (object []) in
      record {
        output = str (join_outputs rt p.outputs);
        error = none;
        base = base;
        inherited = undefined;
        provider_error = none;
        turns_completed = n;
        final_turn_output = or_else (get (lit "output") last) (str []);
        transcript = p.transcript;
        latency_ms_per_turn = p.latencies;
        latency_ms_total = provider.total;
        final = some (record {
          cost_usd = null_if_nullish (get (lit "cost_usd") meta);
          tokens = or_else (get (lit "tokens") meta) (object []);
          transcript_summary = or_else (get (lit "transcript_summary") meta) (str []);
        });
      }

  abbrev pub proceed : (Value → Progress → Report) → Result Report (Value × Progress) → Report
  proceed next (err report) = report
  proceed next (ok (res, p)) = next res p

  unfoldable pub run_turns : ℕ → ℕ → Value → Progress → List Value → Report
  run_turns n i last p [] = finish provider.on_finalize last n p
  run_turns n i last p (turn ∷ turns) =
      proceed (λ res p'. run_turns n (suc i) res p' turns) (take_turn (provider.on_turn i) i turn p)

  -- From the session that `init` returned. One that is null or undefined is not shut down.
  unfoldable pub run_session : Result Value Value → List Value → Report × List InprocEffect
  run_session (err e) turns = (fail e 0 no_progress, [])
  run_session (ok session) turns = (
    run_turns (length turns) 0 null no_progress turns,
    if not (is_nullish session) && provider.has_shutdown then opened ∷ closed ∷ [] else opened ∷ [],
  )

pub record Outcome : Type 0 where
  pub report : Report
  pub effects : List InprocEffect
  pub cache : List Str

abbrev pub bad_factory : Str → ProviderError
bad_factory path = record {
  code = str (lit "BAD_CONFIG");
  message = str ((lit "provider module " ++ path) ++ lit " missing export \"create\"");
  retryable = false;
}

-- The call of a provider that is there.
unfoldable pub run_provider : Runtime → Row → Provider → List Str → List Value → Outcome
unfolding run_session
run_provider rt row provider cache turns =
    let base = base_metadata row.cfg (str row.run_id) in
    let (report, effects) = run_session rt base provider provider.on_init turns in
    record { report = report; effects = ensured row ++ (effects ++ cleaned row); cache = cache }

-- A provider that cannot be made: the report is returned before the `try`.
unfoldable pub not_loaded : Runtime → Row → Provider → List Str → ProviderError → Outcome
not_loaded rt row provider cache e = record {
  report = error_return rt (base_metadata row.cfg (str row.run_id)) e no_progress 0 provider.total;
  effects = ensured row;
  cache = cache;
}

unfoldable pub load_provider :
    Runtime → Row → Provider → Loaded → Str → List Str → List Value → Outcome
unfolding not_loaded run_provider
load_provider rt row provider (load_failed e) kind cache turns =
    not_loaded rt row provider cache (normalize_err rt e)
load_provider rt row provider (factory_failed e) kind cache turns =
    not_loaded rt row provider cache (normalize_err rt e)
load_provider rt row provider no_factory kind cache turns =
    not_loaded rt row provider cache (bad_factory provider.module_path)
load_provider rt row provider loaded kind cache turns =
    run_provider rt row provider (cache ++ kind ∷ []) turns

-- `cache` lists the kinds whose provider has been made.
unfoldable pub dispatch_turns : Runtime → Row → Provider → Str → List Str → List Value → Outcome
unfolding load_provider
dispatch_turns rt row provider kind cache turns =
    if includes cache kind
    then run_provider rt row provider cache turns
    else load_provider rt row provider provider.loading kind cache turns

unfoldable pub dispatch_inproc : Runtime → Row → Provider → Str → List Str → Outcome
dispatch_inproc rt row provider kind cache = elim (usable_turns rt row.turns row.prompt) [
  | none ↦ record {
    report =
        invalid_input (base_metadata row.cfg (str row.run_id)) (lit "vars.turns is empty")
          provider.total;
    effects = [];
    cache = cache;
  }
  | some turns ↦ dispatch_turns rt row provider kind cache turns
]
