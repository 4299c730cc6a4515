-- ===== src/Bridge/Report.antt =====
-- What a call returns: `baseMetadata`, `normalizeErr`, `errorReturn` and `pushTurn`.
use promptfoo_eval_harness.Prelude.{
  ℕ, Bool, false, ◌&&◌, Option, none, some, List, [], ◌∷◌, ◌++◌, Str, lit, if◌then◌else◌,
}
use promptfoo_eval_harness.Js.{
  Value, undefined, null, str, array, get, truthy, or_else, is_object, is_string, lookup,
}
use promptfoo_eval_harness.Bridge.Runtime.{Runtime, redact}

pub record ProviderError : Type 0 where
  pub code : Value
  pub message : Value
  pub retryable : Bool

-- `normalizeErr`. A thrown Error is the object of its `message` and `code`.
unfoldable pub normalize_err : Runtime → Value → ProviderError
normalize_err rt e =
    if is_object e && truthy (get (lit "code") e) && truthy (get (lit "message") e)
    then record {
      code = get (lit "code") e;
      message = redact rt.patterns (get (lit "message") e);
      retryable = truthy (get (lit "retryable") e);
    }
    else if is_string e
    then record {
      code = str (lit "provider_error");
      message = redact rt.patterns e;
      retryable = false;
    }
    else record {
      code = str (lit "bridge_error");
      message = redact rt.patterns (or_else (get (lit "message") e) (str (rt.to_text e)));
      retryable = false;
    }

pub record Entry : Type 0 where
  pub turn_index : ℕ
  pub input : Value
  pub output : Value
  pub latency_ms : ℕ
  pub tool_calls : Value
  pub error : Option ProviderError

-- The parts of the metadata that come from the configuration.
pub record Base : Type 0 where
  pub provider_kind : Value
  pub provider_label : Value
  pub model : Value
  pub sdk_version : Value
  pub run_id : Value
  pub case_id : Value

abbrev pub Config : Type 0
Config = List (Str × Value)

unfoldable pub base_metadata : Config → Value → Base
base_metadata cfg run_id = record {
  provider_kind = lookup (lit "provider_kind") cfg;
  provider_label = or_else (lookup (lit "provider_label") cfg) (str []);
  model = or_else (lookup (lit "model") cfg) null;
  sdk_version = or_else (lookup (lit "sdk_version") cfg) null;
  run_id = or_else run_id null;
  case_id = or_else (lookup (lit "case_id") cfg) null;
}

-- What finalising a session adds; `none` in a report of an error.
pub record Final : Type 0 where
  pub cost_usd : Value
  pub tokens : Value
  pub transcript_summary : Value

-- `inherited` is the metadata of the wrapped command-line provider, which stands between the
-- base fields and the rest. The adapter's version is left out.
pub record Report : Type 0 where
  pub output : Value
  pub error : Option Value
  pub base : Base
  pub inherited : Value
  pub provider_error : Option ProviderError
  pub turns_completed : ℕ
  pub final_turn_output : Value
  pub transcript : List Entry
  pub latency_ms_per_turn : List ℕ
  pub latency_ms_total : ℕ
  pub final : Option Final

abbrev pub separator : Str
separator = 10 ∷ 45 ∷ 45 ∷ 45 ∷ 10 ∷ []

-- `outputs.join('\n---\n')`
unfoldable pub join_outputs : Runtime → List Value → Str
join_outputs rt [] = []
join_outputs rt (v ∷ []) = rt.to_text v
join_outputs rt (v ∷ w ∷ vs) = rt.to_text v ++ (separator ++ join_outputs rt (w ∷ vs))

abbrev last_or : Value → List Value → Value
last_or d [] = d
last_or d (v ∷ vs) = last_or v vs

-- What the turns have produced so far.
pub record Progress : Type 0 where
  pub transcript : List Entry
  pub outputs : List Value
  pub latencies : List ℕ

abbrev pub no_progress : Progress
no_progress = record { transcript = []; outputs = []; latencies = [] }

unfoldable pub push_turn :
    Progress → ℕ → Value → Value → ℕ → Value → Option ProviderError → Progress
push_turn p index input output latency tool_calls error = record p {
  transcript =
      p.transcript
      ++ record {
        turn_index = index;
        input = input;
        output = or_else output (str []);
        latency_ms = latency;
        tool_calls = or_else tool_calls (array []);
        error = error;
      }
        ∷ [];
}

-- `errorReturn`
unfoldable pub error_return : Runtime → Base → ProviderError → Progress → ℕ → ℕ → Report
error_return rt base err p completed total = record {
  output = str (join_outputs rt p.outputs);
  error = some err.message;
  base = base;
  inherited = undefined;
  provider_error = some err;
  turns_completed = completed;
  final_turn_output = or_else (last_or undefined p.outputs) (str []);
  transcript = p.transcript;
  latency_ms_per_turn = p.latencies;
  latency_ms_total = total;
  final = none;
}

-- The report on a row with nothing to send.
abbrev pub invalid_input : Base → Str → ℕ → Report
invalid_input base message total = record {
  output = str [];
  error = some (str message);
  base = base;
  inherited = undefined;
  provider_error =
      some (record { code = str (lit "validation"); message = str message; retryable = false });
  turns_completed = 0;
  final_turn_output = str [];
  transcript = [];
  latency_ms_per_turn = [];
  latency_ms_total = total;
  final = none;
}
