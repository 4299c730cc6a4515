-- ===== src/OpenHands/Stream/Followed.antt =====
-- What the loop over the events of a conversation comes to.

use promptfoo_eval_harness.Prelude.{
  ℕ, ◌≡◌, refl, ap, sym, ◌∙◌, ◌↔◌, true, false, Option, none, some, List, [], ◌∷◌, ◌++◌,
  append_assoc, append-nil, map, All, Bool-cases, inl, inr, Str, lit, trim, str_eq, str_eq_iff,
}
use promptfoo_eval_harness.Js.{
  Value, obj, arr, str, num, bool, null, undefined, get, or_else, is_string, text,
}
use promptfoo_eval_harness.TierConfig.Load.{is_text}
use promptfoo_eval_harness.OpenHands.Stream.{
  Arrival, event, ended, idle, Verdict, go_on, stop, failed, Ended, template, texts_of, is_nullish,
  verdict_of, idle_entry, weigh, follow,
}

-- The texts of events, in order.
abbrev pub all_texts : List Value → List Str
all_texts [] = []
all_texts (e ∷ events) = texts_of e ++ all_texts events

all_texts-append : (xs ys : List Value) → all_texts (xs ++ ys) ≡ all_texts xs ++ all_texts ys
all_texts-append [] ys = refl
all_texts-append (x ∷ xs) ys =
    ap (λ ts. texts_of x ++ ts) (all_texts-append xs ys)
    ∙ sym (append_assoc (texts_of x) (all_texts xs) (all_texts ys))

all_texts-snoc :
    (done : List Value) (e : Value) → all_texts done ++ texts_of e ≡ all_texts (done ++ e ∷ [])
all_texts-snoc done e =
    ap (λ ts. all_texts done ++ ts) (sym (append-nil (texts_of e)))
    ∙ sym (all_texts-append done (e ∷ []))

-- The event reports this status of the execution.
abbrev pub IsStatus : Str → Value → Type 0
IsStatus status e =
    (get (lit "kind") e ≡ str (lit "ConversationStateUpdateEvent"))
    × (get (lit "key") e ≡ str (lit "execution_status"))
    × (get (lit "value") e ≡ str status)

abbrev pub IsFailure : Value → Type 0
IsFailure e = get (lit "kind") e ≡ str (lit "ConversationErrorEvent")

-- An event that can be read, that is no failure and reports none of the statuses of an end.
pub record IsQuiet (e : Value) : Type 0 where
  pub readable : is_nullish e ≡ false
  pub unfailing : ¬ IsFailure e
  pub unfinished : ¬ IsStatus (lit "finished") e
  pub unpaused : ¬ IsStatus (lit "paused") e
  pub faultless : ¬ IsStatus (lit "error") e

is_text_iff : (s : Str) (v : Value) → (is_text s v ≡ true) ↔ (v ≡ str s)
unfolding is_text is_string
is_text_iff s (str t) = (λ h. ap str ((str_eq_iff t s).0 h), λ e. (str_eq_iff t s).1 (ap text e))
is_text_iff s (obj fs) = (λ h. cc, λ e. cc)
is_text_iff s (arr vs) = (λ h. cc, λ e. cc)
is_text_iff s (num n) = (λ h. cc, λ e. cc)
is_text_iff s (bool b) = (λ h. cc, λ e. cc)
is_text_iff s null = (λ h. cc, λ e. cc)
is_text_iff s undefined = (λ h. cc, λ e. cc)

is_text-other : (s : Str) (v : Value) → ¬ (v ≡ str s) → is_text s v ≡ false
is_text-other s v h = elim (Bool-cases (is_text s v)) [
  | inl e ↦ elim (h ((is_text_iff s v).0 e)) [ ]
  | inr e ↦ e
]

module _ (to_text : Value → Str) (null_read : Str) (idle_ms : ℕ) where
  -- The message of a failure: its code and its detail.
  abbrev pub failure_text : Value → Str
  failure_text e =
      let part = template to_text null_read idle_ms in
      trim (
        lit "OpenHands "
        ++ (part (or_else (get (lit "code") e) (str (lit "OpenHandsError")))
            ++ (lit ": " ++ part (or_else (get (lit "detail") e) (str [])))))

  abbrev verdict : Value → Verdict
  verdict = verdict_of to_text null_read idle_ms

  verdict-failure : (e : Value) → IsFailure e → verdict e ≡ failed (failure_text e)
  unfolding verdict_of
  verdict-failure e h =
      rw ((is_text_iff (lit "ConversationErrorEvent") (get (lit "kind") e)).1 h) refl

  verdict-end : (e : Value) → IsStatus (lit "finished") e → verdict e ≡ stop
  unfolding verdict_of is_text is_string str_eq lit
  verdict-end e (k, p, v) = rw (k, p, v) refl

  verdict-pause : (e : Value) → IsStatus (lit "paused") e → verdict e ≡ stop
  unfolding verdict_of is_text is_string str_eq lit
  verdict-pause e (k, p, v) = rw (k, p, v) refl

  verdict-error :
      (e : Value)
      → IsStatus (lit "error") e
      → verdict e ≡ failed (lit "OpenHands execution_status=error (no ConversationErrorEvent)")
  unfolding verdict_of is_text is_string str_eq lit
  verdict-error e (k, p, v) = rw (k, p, v) refl

  -- A status that the event does not report, of an event about the status.
  other_status :
      (s : Str) (e : Value)
      → get (lit "kind") e ≡ str (lit "ConversationStateUpdateEvent")
      → get (lit "key") e ≡ str (lit "execution_status")
      → ¬ IsStatus s e
      → is_text s (get (lit "value") e) ≡ false
  other_status s e k p h = is_text-other s (get (lit "value") e) (λ v. h (k, p, v))

  verdict-quiet : (e : Value) → IsQuiet e → verdict e ≡ go_on
  unfolding verdict_of
  verdict-quiet e q =
      let unfailing = is_text-other (lit "ConversationErrorEvent") _ (q.unfailing) in
      elim (Bool-cases (is_text (lit "ConversationStateUpdateEvent") (get (lit "kind") e))) [
        | inr other ↦ rw (unfailing, other) refl
        | inl about ↦ elim (Bool-cases (is_text (lit "execution_status") (get (lit "key") e))) [
          | inr other ↦ rw (unfailing, about, other) refl
          | inl status ↦
              let k = (is_text_iff _ _).0 about in
              let p = (is_text_iff _ _).0 status in
              rw
                (
                  unfailing,
                  about,
                  status,
                  other_status (lit "finished") e k p (q.unfinished),
                  other_status (lit "paused") e k p (q.unpaused),
                  other_status (lit "error") e k p (q.faultless),
                )
                refl
        ]
      ]

  -- What ends the loop, with the texts, the events and the error that it adds.
  pub data Ends : Arrival → List Str → List Value → Option Str → Type 0 where
    by_silence : Ends idle [] (idle_entry to_text null_read idle_ms ∷ []) none
    by_end : Ends ended [] [] none
    by_null : {e : Value} → is_nullish e ≡ true → Ends (event e) [] (e ∷ []) (some null_read)
    by_failure :
        {e : Value}
        → is_nullish e ≡ false
        → IsFailure e
        → Ends (event e) (texts_of e) (e ∷ []) (some (failure_text e))
    by_finish :
        {e : Value}
        → is_nullish e ≡ false
        → IsStatus (lit "finished") e
        → Ends (event e) (texts_of e) (e ∷ []) none
    by_pause :
        {e : Value}
        → is_nullish e ≡ false
        → IsStatus (lit "paused") e
        → Ends (event e) (texts_of e) (e ∷ []) none
    by_error :
        {e : Value}
        → is_nullish e ≡ false
        → IsStatus (lit "error") e
        → Ends
            (event e)
            (texts_of e)
            (e ∷ [])
            (some (lit "OpenHands execution_status=error (no ConversationErrorEvent)"))

  abbrev pub conclusion : List Value → List Str → List Value → Option Str → Ended
  conclusion quiet texts added error = record {
    texts = all_texts quiet ++ texts;
    trajectory = quiet ++ added;
    error = error;
  }

  follow-last :
      (done : List Value) (last : Arrival) (rest : List Arrival) (texts : List Str)
      (added : List Value) (error : Option Str)
      → Ends last texts added error
      → follow to_text null_read idle_ms (last ∷ rest) (all_texts done) done
        ≡ conclusion done texts added error
  unfolding follow weigh
  follow-last done idle rest _ _ _ by_silence = rw (append-nil (all_texts done)) refl
  follow-last done ended rest _ _ _ by_end = rw (append-nil (all_texts done), append-nil done) refl
  follow-last done (event e) rest _ _ _ (by_null n) = rw (n, append-nil (all_texts done)) refl
  follow-last done (event e) rest _ _ _ (by_failure n h) = rw (n, verdict-failure e h) refl
  follow-last done (event e) rest _ _ _ (by_finish n h) = rw (n, verdict-end e h) refl
  follow-last done (event e) rest _ _ _ (by_pause n h) = rw (n, verdict-pause e h) refl
  follow-last done (event e) rest _ _ _ (by_error n h) = rw (n, verdict-error e h) refl

  follow-quiet :
      (done : List Value) (e : Value) (arrivals : List Arrival)
      → IsQuiet e
      → follow to_text null_read idle_ms (event e ∷ arrivals) (all_texts done) done
        ≡ follow to_text null_read idle_ms arrivals (all_texts (done ++ e ∷ [])) (done ++ e ∷ [])
  unfolding follow weigh
  follow-quiet done e arrivals q =
      rw (q.readable, verdict-quiet e q)
        (ap (λ ts. follow to_text null_read idle_ms arrivals ts (done ++ e ∷ []))
          (all_texts-snoc done e))

  follow-from :
      (done quiet : List Value) (last : Arrival) (rest : List Arrival) (texts : List Str)
      (added : List Value) (error : Option Str)
      → All IsQuiet quiet
      → Ends last texts added error
      → follow to_text null_read idle_ms (map event quiet ++ last ∷ rest) (all_texts done) done
        ≡ conclusion (done ++ quiet) texts added error
  follow-from done [] last rest texts added error h k =
      rw (append-nil done) (follow-last done last rest texts added error k)
  follow-from done (e ∷ quiet) last rest texts added error (q, hs) k =
      rw (sym (append_assoc done (e ∷ []) quiet)) (
        follow-quiet done e (map event quiet ++ last ∷ rest) q
        ∙ follow-from (done ++ e ∷ []) quiet last rest texts added error hs k)

  -- The loop goes on behind each event that is no ConversationErrorEvent and does not report the
  -- status `finished`, `paused` or `error`, and it ends with what comes first of these, an event
  -- that is null, the end of the stream, and the watchdog. What it gives is the texts of all events
  -- up to there, in order, but none of a null event. There is an error only for a
  -- ConversationErrorEvent, the status `error` and a null event, each with its own message. The
  -- trajectory is all events up to there, with an entry behind them for silence, and nothing that
  -- comes later counts.
  pub follow-conclusion :
      (quiet : List Value) (last : Arrival) (rest : List Arrival) (texts : List Str)
      (added : List Value) (error : Option Str)
      → All IsQuiet quiet
      → Ends last texts added error
      → follow to_text null_read idle_ms (map event quiet ++ last ∷ rest) [] []
        ≡ conclusion quiet texts added error
  follow-conclusion quiet last rest texts added error h k =
      follow-from [] quiet last rest texts added error h k
