-- ===== src/OpenHands/Turn.antt =====
-- `extractWorkspace`, `_runOnce`, `_callWithRetries` and `callApi`. The URL of the daemon is a text.
pub mod Cleanup
use promptfoo_eval_harness.Prelude.{
  ℕ, zero, suc, ◌+◌, Bool, true, false, not, ◌&&◌, ◌||◌, Option, none, some, List, [], ◌∷◌, ◌++◌,
  Str, lit, is_empty, is_blank, is_space, starts_with, to_lower, trim_start, ltb, leb, ◌==◌,
  if◌then◌else◌, Result, ok, err,
}
use promptfoo_eval_harness.Paths.{resolve}
use promptfoo_eval_harness.Paths.Relative.{join_below}
use promptfoo_eval_harness.Js.{
  pos, negsuc, integer, Value, null, bool, num, str, object, array, get, or_else, truthy, is_string,
  text, decimal,
}
use promptfoo_eval_harness.OpenHands.Settings.{
  Adapter, build_llm_payload, derive_litellm_provider, resolve_adapter, resolve_tier_config,
  with_server_url, full_text,
}
use promptfoo_eval_harness.OpenHands.Stream.{Arrival, Ended, follow}

-- The run of characters up to the next white space.
unfoldable pub word : Str → Str
unfolding is_space
word [] = []
word (c ∷ s) = if is_space c then [] else c ∷ word s

-- The group of `/(?:Workspace:|operating in workspace)\s*(\S+)/i` at the front, or no text.
unfoldable pub workspace_here : Str → Str
unfolding word starts_with to_lower trim_start
workspace_here s =
    let lower = to_lower s in
    if starts_with lower (lit "workspace:")
    then word (trim_start (behind (lit "workspace:") s))
    else if starts_with lower (lit "operating in workspace")
    then word (trim_start (behind (lit "operating in workspace") s))
    else []
  where
    behind : Str → Str → Str
    behind [] s = s
    behind (p ∷ prefix) [] = []
    behind (p ∷ prefix) (c ∷ s) = behind prefix s

-- `s.replace(/\.$/, '')`
unfoldable pub drop_dot : Str → Str
drop_dot [] = []
drop_dot (c ∷ []) = if c == 46 then [] else c ∷ []
drop_dot (c ∷ d ∷ s) = c ∷ drop_dot (d ∷ s)

-- The workspace that a prompt names first, or no text.
unfoldable pub extract_workspace : Str → Str
unfolding workspace_here drop_dot
extract_workspace [] = []
extract_workspace (c ∷ s) =
    let here = workspace_here (c ∷ s) in
    let later = extract_workspace s in if is_empty here then later else drop_dot here

-- What the daemon answers to a request; `raw` is the body where it is no JSON.
pub record Posted : Type 0 where
  pub status : ℕ
  pub json : Value
  pub raw : Value

-- How often an attempt may follow the first one: the whole number, and how the number of attempts
-- is printed.
pub record Retries : Type 0 where
  pub whole : ℕ
  pub shown : Str

-- What the provider meets: what it is configured with, what it reads, and for each attempt the
-- workspace that would be made for it, the answer to its request, and the events of its stream.
--
-- `other_retries` is `Math.max(0, v)` of a value that the language has to convert first: a fraction,
-- a text, an array or an object, with none for NaN. An infinite number is left out.
pub record Around : Type 0 where
  pub config : Value
  pub provider_id : Str
  pub env : List (Str × Value)
  pub eval_root : Str
  pub repo_root : Str
  pub read_config : Str → Result Str Value
  pub fallback_workspace : ℕ → Str
  pub answer : ℕ → Result Str Posted
  pub arrivals : ℕ → List Arrival
  pub to_text : Value → Str
  pub print_json : Value → Str
  pub null_read : Str
  pub idle_ms : ℕ
  pub other_retries : Value → Option Retries

pub data Effect : Type 0 where
  installed : Str → Str → Effect
  wrote_metadata : Str → Value → Effect
  posted : Str → Value → Effect
  connected : Str → Effect
  closed : Effect
  wrote_trajectory : Str → List Value → Effect

-- `url.replace(/^http/, 'ws')`
unfoldable pub ws_of : Str → Str
ws_of (h ∷ t ∷ u ∷ p ∷ rest) =
    if starts_with (h ∷ t ∷ u ∷ p ∷ []) (lit "http") then lit "ws" ++ rest else h ∷ t ∷ u ∷ p ∷ rest
ws_of s = s

module _ (around : Around) where
  abbrev pub template : Value → Str
  template v = if is_string v then text v else around.to_text v

  abbrev pub url_of : Value → Str
  url_of cfg = template (get (lit "openhands_server_url") cfg)

  unfoldable pub run_metadata : Value → Value → Adapter → Value
  run_metadata cfg tier adapter =
      let model = get (lit "model") tier in
      object (
        (lit "provider_id", str (around.provider_id))
        ∷ (lit "transport", str (lit "openhands-rest+ws"))
        ∷ (lit "agent", str (adapter.agent_id))
        ∷ (lit "agent_tier", get (lit "agent") (around.config))
        ∷ (lit "agent_runtime", str (lit "openhands-agent-server"))
        ∷ (lit "agent_identity_source", str (lit "openhands.json adapter block + agent key"))
        ∷ (lit "agent_entrypoint_identity", str (adapter.agent_id))
        ∷ (lit "agent_entrypoint_file", adapter.agent_entrypoint_file)
        ∷ (lit "agent_semantics", str (adapter.agent_semantics))
        ∷ (lit "plugin_runtime_loaded", bool false)
        ∷ (lit "workspace_kind", str (lit "local"))
        ∷ (
          lit "microagent_installed_path",
          if truthy (adapter.agent_entrypoint_file)
              then str (adapter.microagent_rel_path)
              else null,
        )
        ∷ (lit "model", model)
        ∷ (lit "openhands_server_url", get (lit "openhands_server_url") cfg)
        ∷ (lit "openhands_version", get (lit "openhands_version") cfg)
        ∷ (lit "litellm_provider", derive_litellm_provider model)
        ∷ [])

  abbrev pub install_effects : Str → Adapter → List Effect
  install_effects workspace adapter =
      let file = adapter.agent_entrypoint_file in
      if truthy file
      then installed (resolve (around.repo_root) (text file))
          (join_below workspace (adapter.microagent_rel_path))
        ∷ []
      else []

  abbrev pub request_body : Str → Str → Value → Value → Value
  request_body workspace eval_prompt llm tier = object (
      (
        lit "workspace",
        object ((lit "kind", str (lit "LocalWorkspace")) ∷ (lit "working_dir", str workspace) ∷ []),
      )
      ∷ (lit "agent", object ((lit "kind", str (lit "Agent")) ∷ (lit "llm", llm) ∷ []))
      ∷ (
        lit "initial_message",
        object (
            (lit "role", str (lit "user"))
            ∷ (
              lit "content",
              array (
                  object ((lit "type", str (lit "text")) ∷ (lit "text", str eval_prompt) ∷ [])
                  ∷ []),
            )
            ∷ (lit "run", bool true)
            ∷ []),
      )
      ∷ (lit "max_iterations", get (lit "steps") tier)
      ∷ [])

  abbrev join_texts : List Str → Str
  join_texts [] = []
  join_texts (s ∷ rest) = s ++ join_texts rest

  abbrev pub outcome_of : Ended → Result Str Str
  outcome_of stream = elim (stream.error) [
    | none ↦ ok (join_texts (stream.texts))
    | some message ↦ err message
  ]

  -- The conversation behind its start: the socket is closed and the trajectory is written however
  -- the stream ends.
  unfoldable pub converse : ℕ → Str → Value → Str → List Effect × Result Str Str
  converse attempt workspace cfg conversation =
      let stream =
        follow (around.to_text) (around.null_read) (around.idle_ms) (around.arrivals attempt) []
          [] in
      (
        connected (ws_of (url_of cfg) ++ (lit "/sockets/events/" ++ conversation))
            ∷ closed
            ∷ wrote_trajectory workspace (stream.trajectory)
            ∷ [],
        outcome_of stream,
      )

  unfoldable pub on_answer : ℕ → Str → Value → Result Str Posted → List Effect × Result Str Str
  unfolding converse
  on_answer attempt workspace cfg (err message) = ([], err message)
  on_answer attempt workspace cfg (ok response) =
      let id = get (lit "id") (response.json) in
      if ltb (response.status) 200 || leb 300 (response.status)
      then (
        [],
        err (
            lit "OpenHands POST /api/conversations failed: status "
            ++ (decimal (response.status)
                ++ (lit " body " ++ around.print_json (or_else (response.json) (response.raw))))),
      )
      else if truthy id
      then converse attempt workspace cfg (template id)
      else (
        [],
        err (
            lit "OpenHands POST /api/conversations returned no id field; body="
            ++ around.print_json (response.json)),
      )

  abbrev before : List Effect → List Effect × Result Str Str → List Effect × Result Str Str
  before effects (later, result) = (effects ++ later, result)

  unfoldable pub request :
      ℕ → Str → Str → Value → Value → Result Str Value → List Effect × Result Str Str
  unfolding on_answer
  request attempt workspace eval_prompt cfg tier (err message) = ([], err message)
  request attempt workspace eval_prompt cfg tier (ok llm) =
      before
        (posted (url_of cfg ++ lit "/api/conversations")
            (request_body workspace eval_prompt llm tier)
          ∷ [])
        (on_answer attempt workspace cfg (around.answer attempt))

  unfoldable pub with_adapter :
      ℕ → Str → Value → Value → Result Str Adapter → List Effect × Result Str Str
  unfolding request run_metadata extract_workspace
  with_adapter attempt prompt cfg tier (err message) = ([], err message)
  with_adapter attempt prompt cfg tier (ok adapter) =
      let named = extract_workspace prompt in
      let workspace = if is_empty named then around.fallback_workspace attempt else named in
      before
        (install_effects workspace adapter
          ++ wrote_metadata workspace (run_metadata cfg tier adapter) ∷ [])
        (request attempt workspace (adapter.eval_mode_preamble ++ (10 ∷ 10 ∷ prompt)) cfg tier
          (build_llm_payload (around.env) (get (lit "model") tier)))

  unfoldable pub run_once : ℕ → Str → Value → Value → List Effect × Result Str Str
  unfolding with_adapter
  run_once attempt prompt cfg tier = with_adapter attempt prompt cfg tier (resolve_adapter cfg)

  abbrev exactly : ℕ → Option Retries
  exactly n = some (record { whole = n; shown = decimal (suc n) })

  -- `Math.max(0, v || 0)`
  unfoldable pub retries_of : Value → Option Retries
  retries_of (num (integer (pos n))) = exactly n
  retries_of (num (integer (negsuc n))) = exactly 0
  retries_of (bool true) = exactly 1
  retries_of v = if truthy v then around.other_retries v else exactly 0

  abbrev pub empty_output : ℕ → Str → Str
  empty_output attempt max_attempts =
      lit "OpenHands returned empty output (attempt "
      ++ (decimal attempt ++ (47 ∷ (max_attempts ++ lit ")")))

  -- What an attempt gives, with the effects of those behind it if its output is blank.
  unfoldable pub settle :
      List Effect × Result Str Str → List Effect × Result Str Str → List Effect × Result Str Str
  settle (effects, err message) again = (effects, err message)
  settle (effects, ok output) again =
      if is_blank output then before effects again else (effects, ok output)

  -- The loop, from an attempt on, with the number of attempts behind it.
  unfoldable pub attempts : Str → ℕ → ℕ → Str → Value → Value → List Effect × Result Str Str
  unfolding settle
  attempts max_attempts attempt zero prompt cfg tier =
      settle (run_once attempt prompt cfg tier) ([], err (empty_output attempt max_attempts))
  attempts max_attempts attempt (suc more) prompt cfg tier =
      settle (run_once attempt prompt cfg tier)
        (attempts max_attempts (suc attempt) more prompt cfg tier)

  -- Not a single attempt is made where the number of attempts is NaN.
  unfoldable pub call_with_retries :
      Option Retries → Str → Value → Value → List Effect × Result Str Str
  unfolding attempts
  call_with_retries none prompt cfg tier =
      ([], err (lit "OpenHands returned empty output after NaN attempt(s)"))
  call_with_retries (some retries) prompt cfg tier =
      attempts (retries.shown) 1 (retries.whole) prompt cfg tier

  unfoldable pub with_config : Str → Result Str Value → List Effect × Result Str Str
  unfolding call_with_retries
  with_config prompt (err message) = ([], err message)
  with_config prompt (ok read) =
      let cfg = with_server_url (around.env) read in
      call_with_retries (retries_of (get (lit "empty_output_retries") (around.config))) prompt cfg
        (resolve_tier_config (around.env) (around.config) cfg)

  abbrev pub config_path : Str
  config_path =
      let config = around.config in
      resolve (around.eval_root) (
        text (
          or_else
            (or_else (get (lit "openhands_config") config) (get (lit "opencode_config") config))
            (str (lit "openhands.json"))))

  abbrev pub missing_agent : Str
  missing_agent = lit "OpenHands provider requires the agent tier name in config.agent"

  -- What is done, and the output or the error that is reported.
  unfoldable pub call_api : Str → List Effect × Result Str Str
  unfolding with_config
  call_api prompt =
      if full_text (get (lit "agent") (around.config))
      then with_config prompt (around.read_config config_path)
      else ([], err missing_agent)
