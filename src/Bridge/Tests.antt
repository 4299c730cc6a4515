-- ===== src/Bridge/Tests.antt =====
-- A row of two turns against answers of each kind, and the theorems at concrete inputs.
use promptfoo_eval_harness.Prelude.{
  zero, suc, ◌≡◌, refl, lit, true, false, none, some, List, [], ◌∷◌, ◌++◌, str_eq, length, map,
  is_blank, trim, is_space, ok, if◌then◌else◌,
}
use promptfoo_eval_harness.Js.{Value, undefined, null, str, object, array}
use promptfoo_eval_harness.Bridge.Runtime.{Runtime, redact, redact_string}
use promptfoo_eval_harness.Bridge.Runtime.Redaction.{texts, shape, texts-redact}
use promptfoo_eval_harness.Bridge.Report.{Base, base_metadata}
use promptfoo_eval_harness.Bridge.Ipc.{chunk, received, rejected, malformed, settle}
use promptfoo_eval_harness.Bridge.Ipc.Lines.{settle-line, settle-split}
use promptfoo_eval_harness.Bridge.Subprocess.{Row, World, dispatch_turns}
use promptfoo_eval_harness.Bridge.Subprocess.Account.{IsAccount, dispatch_turns-IsAccount}
use promptfoo_eval_harness.Bridge.Subprocess.Effects.{replay, dispatch_turns_in_order}
use promptfoo_eval_harness.Bridge.Inproc
use promptfoo_eval_harness.Bridge.Inproc.{Loaded, Provider, loaded, load_failed}
use promptfoo_eval_harness.Bridge.Inproc.Account.{dispatch_inproc_turns-IsAccount}
use promptfoo_eval_harness.Bridge.Call.{Cli, Env, multi_turn_error, dispatch_cli}
use promptfoo_eval_harness.Bridge.Call.Dispatch.{
  Refuses, dispatch_cli-Refuses, dispatch_cli-IsAccount,
}

abbrev runtime : Runtime
runtime = record {
  json_parse = λ s. if str_eq s (lit "{}") then some (object []) else none;
  to_text = λ v. lit "a value";
  null_read = object ((lit "message", str (lit "Cannot read properties of null")) ∷ []);
  patterns = (λ s. if str_eq s (lit "sk-1") then lit "[redacted]" else s) ∷ [];
}

abbrev row : Row
row = record {
  cfg = (lit "provider_kind", str (lit "openhands_sdk")) ∷ (lit "case_id", str (lit "case7")) ∷ [];
  turns = array (str (lit "hello") ∷ str (lit "and then?") ∷ []);
  prompt = str (lit "hello");
  row_case_id = undefined;
  run_id = lit "run1";
  keep_workspace = [];
}

abbrev turns : List Value
turns = str (lit "hello") ∷ str (lit "and then?") ∷ []

-- A subprocess that answers the first turn and crashes in the second.
abbrev world : World
world = record {
  spawned = ok tt;
  on_init = received (object ((lit "session_id", str (lit "s1")) ∷ []));
  on_turn = λ i. elim i [
    | zero ↦ received (object ((lit "text", str (lit "hi")) ∷ []))
    | suc j ↦ rejected (object ((lit "message", str (lit "closed")) ∷ []))
  ];
  on_finalize = received (object []);
  latency = λ i. 10;
  total = 25;
}

dispatch_turns-IsAccount_example : IsAccount turns (dispatch_turns runtime row world turns).report
dispatch_turns-IsAccount_example = dispatch_turns-IsAccount runtime row world turns

dispatch_turns_in_order_example :
    replay (length turns) none (dispatch_turns runtime row world turns).effects ≡ some none
dispatch_turns_in_order_example = dispatch_turns_in_order runtime row world turns

abbrev provider : Loaded → Provider
provider loading = record {
  loading = loading;
  module_path = lit "providers/codex_sdk/provider.js";
  on_init = ok (object []);
  on_turn = λ i. ok (object ((lit "output", str (lit "done")) ∷ []));
  on_finalize = ok (object []);
  has_shutdown = true;
  latency = λ i. 5;
  total = 12;
}

dispatch_inproc_turns-IsAccount_example :
    IsAccount turns
      (Inproc.dispatch_turns runtime row (provider loaded) (lit "codex_sdk") [] turns).report
dispatch_inproc_turns-IsAccount_example =
    dispatch_inproc_turns-IsAccount runtime row (provider loaded) (lit "codex_sdk") [] turns

abbrev cli : Cli
cli = record { answer = ok (object ((lit "output", str (lit "4")) ∷ [])); latency = 8; total = 9 }

abbrev env : Env
env = record { cli = cli; provider = provider loaded; world = world }

abbrev base : Base
base = base_metadata row.cfg (str row.run_id)

dispatch_cli-Refuses_example :
    let r = dispatch_cli runtime base cli (some turns) in
    (r.turns_completed ≡ 0)
    × Refuses 0 turns r.transcript
    × (r.provider_error ≡ some multi_turn_error)
dispatch_cli-Refuses_example =
    dispatch_cli-Refuses runtime base cli (str (lit "hello")) (str (lit "and then?")) []

dispatch_cli-IsAccount_example :
    IsAccount
      (str (lit "hello") ∷ [])
      (dispatch_cli runtime base cli (some (str (lit "hello") ∷ [])))
dispatch_cli-IsAccount_example = dispatch_cli-IsAccount runtime base cli (str (lit "hello"))

reply_parses : runtime.json_parse (lit "{}") ≡ some (object [])
unfolding str_eq lit
reply_parses = refl

reply_full : is_blank (lit "{}") ≡ false
unfolding trim is_space lit
reply_full = refl

settle-line_example :
    settle runtime null (chunk (lit "{}" ++ (10 ∷ lit "{}")) ∷ []) ≡ some (received (object []))
unfolding lit
settle-line_example =
    settle-line runtime null (lit "{}") (lit "{}") [] (object []) refl reply_full reply_parses

part_fails : runtime.json_parse (lit "{") ≡ none
unfolding str_eq lit
part_fails = refl

part_full : is_blank (lit "{") ≡ false
unfolding trim is_space lit
part_full = refl

settle-split_example :
    settle runtime null (chunk (lit "{") ∷ chunk (lit "}") ∷ [])
    ≡ some (rejected (malformed (lit "{")))
unfolding lit
settle-split_example = settle-split runtime null (lit "{") (lit "}") [] refl part_full part_fails

abbrev leak : Value
leak = object ((lit "key", str (lit "sk-1")) ∷ (lit "more", array (str (lit "fine") ∷ [])) ∷ [])

texts-redact_example :
    (texts (redact runtime.patterns leak) ≡ map (redact_string runtime.patterns) (texts leak))
    × (shape (redact runtime.patterns leak) ≡ shape leak)
texts-redact_example = texts-redact runtime.patterns leak
