-- ===== src/OpenHands/Turn/Cleanup.antt =====
-- The sockets that a call opens, and how often it asks the daemon.
use promptfoo_eval_harness.Prelude.{
  ℕ, zero, suc, ◌+◌, ◌≤◌, ◌≡◌, refl, Bool, true, false, ◌||◌, List, [], ◌∷◌, ◌++◌, arith, Option,
  none, some, Str, lit, is_empty, is_blank, ltb, leb, Bool-cases, inl, inr, if◌then◌else◌, Result,
  ok, err,
}
use promptfoo_eval_harness.Js.{Value, get, truthy}
use promptfoo_eval_harness.OpenHands.Settings.{
  Adapter, build_llm_payload, resolve_adapter, full_text, with_server_url, resolve_tier_config,
}
use promptfoo_eval_harness.OpenHands.Turn.{
  Around, Posted, Effect, installed, wrote_metadata, posted, connected, closed, wrote_trajectory,
  install_effects, converse, on_answer, request, with_adapter, run_once, retries_of, settle,
  attempts, call_with_retries, with_config, Retries, call_api, extract_workspace, run_metadata,
  empty_output, config_path,
}

-- A socket is open, or is closed with its trajectory still to be written, or there is none.
pub data Phase : Type 0 where
  resting streaming unwritten : Phase

-- A socket is opened only while there is none, is closed before its trajectory is written, and in
-- the end both are done.
unfoldable pub tidy : Phase → List Effect → Bool
tidy resting [] = true
tidy resting (connected url ∷ effects) = tidy streaming effects
tidy streaming (closed ∷ effects) = tidy unwritten effects
tidy unwritten (wrote_trajectory workspace events ∷ effects) = tidy resting effects
tidy phase (installed from to ∷ effects) = tidy phase effects
tidy phase (wrote_metadata workspace v ∷ effects) = tidy phase effects
tidy phase (posted url body ∷ effects) = tidy phase effects
tidy _ _ = false

-- The requests.
unfoldable pub requests : List Effect → ℕ
requests [] = 0
requests (posted url body ∷ effects) = suc (requests effects)
requests (connected url ∷ effects) = requests effects
requests (closed ∷ effects) = requests effects
requests (wrote_trajectory workspace events ∷ effects) = requests effects
requests (installed from to ∷ effects) = requests effects
requests (wrote_metadata workspace v ∷ effects) = requests effects

tidy-append :
    (phase : Phase) (xs ys : List Effect)
    → tidy phase xs ≡ true
    → tidy resting ys ≡ true
    → tidy phase (xs ++ ys) ≡ true
unfolding tidy
tidy-append resting [] ys h k = k
tidy-append streaming [] ys h k = cc
tidy-append unwritten [] ys h k = cc
tidy-append resting (connected url ∷ xs) ys h k = tidy-append streaming xs ys h k
tidy-append streaming (connected url ∷ xs) ys h k = cc
tidy-append unwritten (connected url ∷ xs) ys h k = cc
tidy-append resting (closed ∷ xs) ys h k = cc
tidy-append streaming (closed ∷ xs) ys h k = tidy-append unwritten xs ys h k
tidy-append unwritten (closed ∷ xs) ys h k = cc
tidy-append resting (wrote_trajectory w v ∷ xs) ys h k = cc
tidy-append streaming (wrote_trajectory w v ∷ xs) ys h k = cc
tidy-append unwritten (wrote_trajectory w v ∷ xs) ys h k = tidy-append resting xs ys h k
tidy-append resting (installed a b ∷ xs) ys h k = tidy-append resting xs ys h k
tidy-append streaming (installed a b ∷ xs) ys h k = tidy-append streaming xs ys h k
tidy-append unwritten (installed a b ∷ xs) ys h k = tidy-append unwritten xs ys h k
tidy-append resting (wrote_metadata w v ∷ xs) ys h k = tidy-append resting xs ys h k
tidy-append streaming (wrote_metadata w v ∷ xs) ys h k = tidy-append streaming xs ys h k
tidy-append unwritten (wrote_metadata w v ∷ xs) ys h k = tidy-append unwritten xs ys h k
tidy-append resting (posted u b ∷ xs) ys h k = tidy-append resting xs ys h k
tidy-append streaming (posted u b ∷ xs) ys h k = tidy-append streaming xs ys h k
tidy-append unwritten (posted u b ∷ xs) ys h k = tidy-append unwritten xs ys h k

requests-append : (xs ys : List Effect) → requests (xs ++ ys) ≡ requests xs + requests ys
unfolding requests
requests-append [] ys = omega arith
requests-append (posted u b ∷ xs) ys = omega (arith, requests-append xs ys)
requests-append (connected u ∷ xs) ys = requests-append xs ys
requests-append (closed ∷ xs) ys = requests-append xs ys
requests-append (wrote_trajectory w v ∷ xs) ys = requests-append xs ys
requests-append (installed a b ∷ xs) ys = requests-append xs ys
requests-append (wrote_metadata w v ∷ xs) ys = requests-append xs ys

-- Every socket is closed and its trajectory written, and at most so many requests are made.
abbrev pub IsTidy : ℕ → List Effect → Type 0
IsTidy most effects = (tidy resting effects ≡ true) × (requests effects ≤ most)

IsTidy-append :
    (m n : ℕ) (xs ys : List Effect) → IsTidy m xs → IsTidy n ys → IsTidy (m + n) (xs ++ ys)
IsTidy-append m n xs ys (a, b) (c, d) =
    (tidy-append resting xs ys a c, omega (arith, requests-append xs ys, b, d))

IsTidy-more : (m n : ℕ) (xs : List Effect) → IsTidy m xs → m ≤ n → IsTidy n xs
IsTidy-more m n xs (a, b) h = (a, omega (arith, b, h))

module _ (around : Around) where
  on_answer-IsTidy :
      (attempt : ℕ) (workspace : Str) (cfg : Value) (answer : Result Str Posted)
      → IsTidy 0 (on_answer around attempt workspace cfg answer).0
  unfolding on_answer converse tidy requests
  on_answer-IsTidy attempt workspace cfg (err message) = (refl, omega arith)
  on_answer-IsTidy attempt workspace cfg (ok response) =
      elim (Bool-cases (ltb (response.status) 200 || leb 300 (response.status))) [
        | inl refused ↦ rw refused (refl, omega arith)
        | inr accepted ↦ elim (Bool-cases (truthy (get (lit "id") (response.json)))) [
          | inl given ↦ rw (accepted, given) (refl, omega arith)
          | inr missing ↦ rw (accepted, missing) (refl, omega arith)
        ]
      ]

  request-IsTidy :
      (attempt : ℕ) (workspace prompt : Str) (cfg tier : Value) (llm : Result Str Value)
      → IsTidy 1 (request around attempt workspace prompt cfg tier llm).0
  request-IsTidy attempt workspace prompt cfg tier (err message) =
      unfold request tidy requests in (refl, omega arith)
  request-IsTidy attempt workspace prompt cfg tier (ok llm) =
      let (books, none_asked) = on_answer-IsTidy attempt workspace cfg (around.answer attempt) in
      unfold request tidy requests in (books, omega (arith, none_asked))

  install_effects-IsTidy :
      (workspace : Str) (adapter : Adapter) (v : Value)
      → IsTidy 0 (install_effects around workspace adapter ++ wrote_metadata workspace v ∷ [])
  unfolding tidy requests
  install_effects-IsTidy workspace adapter v =
      elim (Bool-cases (truthy (adapter.agent_entrypoint_file))) [
        | inl e ↦ rw e (refl, omega arith)
        | inr e ↦ rw e (refl, omega arith)
      ]

  with_adapter-IsTidy :
      (attempt : ℕ) (prompt : Str) (cfg tier : Value) (adapter : Result Str Adapter)
      → IsTidy 1 (with_adapter around attempt prompt cfg tier adapter).0
  with_adapter-IsTidy attempt prompt cfg tier (err message) =
      unfold with_adapter tidy requests in (refl, omega arith)
  with_adapter-IsTidy attempt prompt cfg tier (ok adapter) =
      let named = extract_workspace prompt in
      let workspace = if is_empty named then around.fallback_workspace attempt else named in
      unfold with_adapter in
      IsTidy-append 0 1 _ _
        (install_effects-IsTidy workspace adapter (run_metadata around cfg tier adapter))
        (request-IsTidy attempt workspace _ cfg tier
          (build_llm_payload (around.env) (get (lit "model") tier)))

  settle-IsTidy :
      (m n : ℕ) (o again : List Effect × Result Str Str)
      → IsTidy m o.0
      → IsTidy n again.0
      → IsTidy (m + n) (settle around o again).0
  unfolding settle
  settle-IsTidy m n (effects, err message) again h k = IsTidy-more m (m + n) effects h (omega arith)
  settle-IsTidy m n (effects, ok output) again h k = elim (Bool-cases (is_blank output)) [
    | inl blank ↦ rw blank (IsTidy-append m n effects again.0 h k)
    | inr full ↦ rw full (IsTidy-more m (m + n) effects h (omega arith))
  ]

  run_once-IsTidy :
      (attempt : ℕ) (prompt : Str) (cfg tier : Value)
      → IsTidy 1 (run_once around attempt prompt cfg tier).0
  unfolding run_once
  run_once-IsTidy attempt prompt cfg tier =
      with_adapter-IsTidy attempt prompt cfg tier (resolve_adapter cfg)

  attempts-IsTidy :
      (most : Str) (attempt more : ℕ) (prompt : Str) (cfg tier : Value)
      → IsTidy (suc more) (attempts around most attempt more prompt cfg tier).0
  unfolding attempts
  attempts-IsTidy most attempt zero prompt cfg tier =
      let last : List Effect × Result Str Str = ([], err (empty_output around attempt most)) in
      IsTidy-more (1 + 0) 1 _
        (settle-IsTidy 1 0 (run_once around attempt prompt cfg tier) last
          (run_once-IsTidy attempt prompt cfg tier) (unfold tidy requests in (refl, omega arith)))
        (omega arith)
  attempts-IsTidy most attempt (suc more) prompt cfg tier =
      IsTidy-more (1 + suc more) (suc (suc more)) _
        (settle-IsTidy 1 (suc more) (run_once around attempt prompt cfg tier)
          (attempts around most (suc attempt) more prompt cfg tier)
          (run_once-IsTidy attempt prompt cfg tier)
          (attempts-IsTidy most (suc attempt) more prompt cfg tier))
        (omega arith)

  -- The most attempts that a count of retries allows.
  abbrev pub most_attempts : Option Retries → ℕ
  most_attempts none = 0
  most_attempts (some retries) = suc (retries.whole)

  call_with_retries-IsTidy :
      (retries : Option Retries) (prompt : Str) (cfg tier : Value)
      → IsTidy (most_attempts retries) (call_with_retries around retries prompt cfg tier).0
  unfolding call_with_retries
  call_with_retries-IsTidy none prompt cfg tier = unfold tidy requests in (refl, omega arith)
  call_with_retries-IsTidy (some retries) prompt cfg tier =
      attempts-IsTidy (retries.shown) 1 (retries.whole) prompt cfg tier

  with_config-IsTidy :
      (prompt : Str) (read : Result Str Value)
      → IsTidy
          (most_attempts (retries_of around (get (lit "empty_output_retries") (around.config))))
          (with_config around prompt read).0
  with_config-IsTidy prompt (err message) = unfold with_config tidy requests in (refl, omega arith)
  with_config-IsTidy prompt (ok read) =
      let cfg = with_server_url (around.env) read in
      let retries = retries_of around (get (lit "empty_output_retries") (around.config)) in
      unfold with_config in
      call_with_retries-IsTidy retries prompt cfg
        (resolve_tier_config (around.env) (around.config) cfg)

  -- Whatever the daemon answers and however each stream ends, by an event, by silence, by an error
  -- or by an event that cannot be read: every socket that a call opens is closed, its trajectory
  -- is written behind that, and both are done before another socket is opened. The daemon is asked
  -- for a conversation at most once more than the retries that are configured.
  pub call_api-IsTidy :
      (prompt : Str)
      → IsTidy
          (most_attempts (retries_of around (get (lit "empty_output_retries") (around.config))))
          (call_api around prompt).0
  call_api-IsTidy prompt = elim (Bool-cases (full_text (get (lit "agent") (around.config)))) [
    | inl named ↦
        unfold call_api in
        rw named (with_config-IsTidy prompt (around.read_config (config_path around)))
    | inr missing ↦ unfold call_api in rw missing (unfold tidy requests in (refl, omega arith))
  ]
