-- ===== src/OpenHands/Tests.antt =====
-- Conversations, and the theorems at concrete inputs.
use promptfoo_eval_harness.Prelude.{
  some, none, ◌≡◌, refl, [], ◌∷◌, ◌++◌, map, Str, lit, str_eq, trim_start, is_space, starts_with,
  to_lower, ok,
}
use promptfoo_eval_harness.Js.{pos, integer, Value, num, str, object, array, get, lookup}
use promptfoo_eval_harness.OpenHands.Stream.{event, idle, texts_of, follow}
use promptfoo_eval_harness.OpenHands.Stream.Followed.{
  IsQuiet, IsFailure, by_failure, failure_text, conclusion, follow-conclusion,
}
use promptfoo_eval_harness.OpenHands.Turn.{
  Around, retries_of, call_api, extract_workspace, workspace_here, word, drop_dot,
}
use promptfoo_eval_harness.OpenHands.Turn.Cleanup.{IsTidy, most_attempts, call_api-IsTidy}

abbrev print : Value → Str
print v = lit "?"

abbrev message : Value
message = object (
    (lit "kind", str (lit "MessageEvent"))
    ∷ (lit "source", str (lit "agent"))
    ∷ (
      lit "llm_message",
      object ((lit "content", array (object ((lit "text", str (lit "done")) ∷ []) ∷ [])) ∷ []),
    )
    ∷ [])

abbrev failure : Value
failure =
    object
      ((lit "kind", str (lit "ConversationErrorEvent")) ∷ (lit "code", str (lit "Budget")) ∷ [])

message-IsQuiet : IsQuiet message
unfolding get lookup str_eq lit
message-IsQuiet = record {
  readable = refl;
  unfailing = λ h. cc;
  unfinished = λ h. cc;
  unpaused = λ h. cc;
  faultless = λ h. cc;
}

failure-IsFailure : IsFailure failure
unfolding get lookup str_eq lit
failure-IsFailure = refl

follow-conclusion_example :
    follow print (lit "null") 1000 (map event (message ∷ []) ++ event failure ∷ idle ∷ []) [] []
    ≡ conclusion print
        (lit "null")
        1000
        (message ∷ [])
        (texts_of failure)
        (failure ∷ [])
        (some (failure_text print (lit "null") 1000 failure))
follow-conclusion_example =
    follow-conclusion print (lit "null") 1000 (message ∷ []) (event failure) (idle ∷ [])
      (texts_of failure) (failure ∷ []) (some (failure_text print (lit "null") 1000 failure))
      (message-IsQuiet, tt) (by_failure refl failure-IsFailure)

abbrev around : Around
around = record {
  config =
      object (
        (lit "agent", str (lit "light"))
        ∷ (lit "empty_output_retries", num (integer (pos 1)))
        ∷ []);
  provider_id = lit "openhands-agent-server";
  env = [];
  eval_root = lit "/r";
  repo_root = lit "/";
  read_config = λ path. ok (
      object (
        (lit "adapter", object ((lit "agent_id", str (lit "a")) ∷ []))
        ∷ (lit "openhands_server_url", str (lit "http://127.0.0.1:8000"))
        ∷ []));
  fallback_workspace = λ attempt. lit "/r/.workspaces/provider-runs/openhands-1";
  answer = λ attempt.
      ok (record { status = 201; json = object ((lit "id", str (lit "c1")) ∷ []); raw = str [] });
  arrivals = λ attempt. event message ∷ idle ∷ [];
  to_text = print;
  print_json = print;
  null_read = lit "null";
  idle_ms = 1000;
  other_retries = λ v. none;
}

call_api-IsTidy_example :
    IsTidy
      (most_attempts around (retries_of around (get (lit "empty_output_retries") (around.config))))
      (call_api around (lit "Workspace: /tmp/w. Go.")).0
call_api-IsTidy_example = call_api-IsTidy around (lit "Workspace: /tmp/w. Go.")

-- The workspace that a prompt names, without the dot that ends the sentence.
workspace : extract_workspace (lit "In Workspace: /tmp/w. Go.") ≡ lit "/tmp/w"
unfolding extract_workspace workspace_here word drop_dot to_lower trim_start is_space starts_with
    lit
workspace = refl
