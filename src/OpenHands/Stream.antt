-- ===== src/OpenHands/Stream.antt =====
-- The loop of `_runOnce` over the events of a conversation.
pub mod Followed
use promptfoo_eval_harness.Prelude.{
  ℕ, Bool, true, false, not, ◌&&◌, ◌||◌, Option, none, some, List, [], ◌∷◌, ◌++◌, Str, lit, str_eq,
  is_empty, trim, if◌then◌else◌, Result, ok, err,
}
use promptfoo_eval_harness.Js.{
  pos, integer, Value, undefined, null, num, str, object, get, or_else, truthy, is_string, text,
  elements,
}
use promptfoo_eval_harness.TierConfig.Load.{is_text}

-- What a wait for the next event ends with: an event, the end of the stream, or the watchdog.
pub data Arrival : Type 0 where
  event : Value → Arrival
  ended idle : Arrival

-- What an event means for the loop.
pub data Verdict : Type 0 where
  go_on stop : Verdict
  failed : Str → Verdict

abbrev pub part_texts : List Value → List Str
part_texts [] = []
part_texts (part ∷ parts) =
    let rest = part_texts parts in
    let t = get (lit "text") part in if is_string t then text t ∷ rest else rest

abbrev pub has_kind : Str → Value → Bool
has_kind kind e = is_text kind (get (lit "kind") e)

abbrev pub message_texts : Value → List Str
message_texts e =
    if has_kind (lit "MessageEvent") e && is_text (lit "agent") (get (lit "source") e)
    then part_texts (elements (get (lit "content") (get (lit "llm_message") e)))
    else []

abbrev pub finish_texts : Value → List Str
finish_texts e =
    let message = get (lit "message") (get (lit "action") e) in
    if has_kind (lit "ActionEvent") e && has_kind (lit "FinishAction") (get (lit "action") e)
    then if is_string message && not (is_empty (text message)) then text message ∷ [] else []
    else []

-- The texts that an event adds to the output.
unfoldable pub texts_of : Value → List Str
texts_of e = message_texts e ++ finish_texts e

abbrev pub is_nullish : Value → Bool
is_nullish undefined = true
is_nullish null = true
is_nullish _ = false

-- How the loop ends: the texts, the trajectory, and the error if there is one.
pub record Ended : Type 0 where
  pub texts : List Str
  pub trajectory : List Value
  pub error : Option Str

-- `to_text` is what a template literal makes of a value that is no text, `null_read` the message of
-- reading a property of null or undefined, and `idle_ms` the time of the watchdog.
module _ (to_text : Value → Str) (null_read : Str) (idle_ms : ℕ) where
  abbrev pub template : Value → Str
  template v = if is_string v then text v else to_text v

  unfoldable pub verdict_of : Value → Verdict
  verdict_of e =
      let status = get (lit "value") e in
      let code = or_else (get (lit "code") e) (str (lit "OpenHandsError")) in
      let detail = or_else (get (lit "detail") e) (str []) in
      if has_kind (lit "ConversationErrorEvent") e
      then failed (trim (lit "OpenHands " ++ (template code ++ (lit ": " ++ template detail))))
      else if has_kind (lit "ConversationStateUpdateEvent") e
          && is_text (lit "execution_status") (get (lit "key") e)
      then if is_text (lit "finished") status || is_text (lit "paused") status
        then stop
        else if is_text (lit "error") status
        then failed (lit "OpenHands execution_status=error (no ConversationErrorEvent)")
        else go_on
      else go_on

  abbrev pub idle_entry : Value
  idle_entry =
      object
        ((lit "kind", str (lit "idle_timeout")) ∷ (lit "idle_ms", num (integer (pos idle_ms))) ∷ [])

  -- What an event leaves; `rest` goes on behind it.
  unfoldable pub weigh : Verdict → List Str → List Value → (List Str → List Value → Ended) → Ended
  weigh go_on texts trajectory rest = rest texts trajectory
  weigh stop texts trajectory rest = record { texts = texts; trajectory = trajectory; error = none }
  weigh (failed message) texts trajectory rest = record {
    texts = texts;
    trajectory = trajectory;
    error = some message;
  }

  unfoldable pub follow : List Arrival → List Str → List Value → Ended
  unfolding weigh verdict_of texts_of
  follow [] texts trajectory = record { texts = texts; trajectory = trajectory; error = none }
  follow (idle ∷ arrivals) texts trajectory = record {
    texts = texts;
    trajectory = trajectory ++ idle_entry ∷ [];
    error = none;
  }
  follow (ended ∷ arrivals) texts trajectory = record {
    texts = texts;
    trajectory = trajectory;
    error = none;
  }
  follow (event e ∷ arrivals) texts trajectory =
      if is_nullish e
      then record { texts = texts; trajectory = trajectory ++ e ∷ []; error = some null_read }
      else weigh (verdict_of e) (texts ++ texts_of e) (trajectory ++ e ∷ []) (follow arrivals)
