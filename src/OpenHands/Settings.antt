-- ===== src/OpenHands/Settings.antt =====
-- `resolveAdapter`, `deriveLitellmProvider`, `buildLlmPayload`, `_readOpenhandsConfig` and
-- `_resolveTierConfig`.
use promptfoo_eval_harness.Prelude.{
  Bool, not, ◌&&◌, List, [], ◌∷◌, ◌++◌, Str, lit, str_eq, is_empty, is_blank, trim, ◌==◌,
  if◌then◌else◌, Result, ok, err,
}
use promptfoo_eval_harness.Js.{
  Value, undefined, null, str, object, get, put, lookup, or_else, truthy, is_object, is_string,
  text, entries,
}

-- What is thrown, by its message.
abbrev pub missing_agent_id : Str
missing_agent_id = lit "OpenHands provider requires adapter.agent_id in openhands.json"

abbrev pub missing_api_key : Str
missing_api_key = lit "OPENCODE_API_KEY is required for opencode-go/* models"

abbrev pub full_text : Value → Bool
full_text v = is_string v && not (is_blank (text v))

-- The text before the first slash, and the text behind it; without a slash both are the whole.
unfoldable pub before_slash : Str → Str
before_slash [] = []
before_slash (c ∷ s) = if c == 47 then [] else c ∷ before_slash s

unfoldable pub from_slash : Str → Str → Str
from_slash whole [] = whole
from_slash whole (c ∷ s) = if c == 47 then s else from_slash whole s

abbrev pub has_text : Value → Bool
has_text model = is_string model && not (is_empty (text model))

unfoldable pub derive_litellm_provider : Value → Value
unfolding before_slash
derive_litellm_provider model = if has_text model then str (before_slash (text model)) else null

abbrev pub api_keys : List (Str × Str)
api_keys =
    (lit "anthropic", lit "ANTHROPIC_API_KEY")
    ∷ (lit "openai", lit "OPENAI_API_KEY")
    ∷ (lit "groq", lit "GROQ_API_KEY")
    ∷ (lit "deepseek", lit "DEEPSEEK_API_KEY")
    ∷ []

-- The key of a provider in the environment, if it is one of the four; the names that every object
-- inherits are left out.
unfoldable pub api_key_of : List (Str × Value) → List (Str × Str) → Str → Value
api_key_of env [] provider = undefined
api_key_of env ((name, key) ∷ keys) provider =
    if str_eq name provider then lookup key env else api_key_of env keys provider

-- `env` is `process.env`.
unfoldable pub build_llm_payload : List (Str × Value) → Value → Result Str Value
unfolding before_slash from_slash api_key_of
build_llm_payload env model =
    let provider = before_slash (text model) in
    let opencode_key = lookup (lit "OPENCODE_API_KEY") env in
    let api_key = api_key_of env api_keys provider in
    if not (has_text model)
    then ok (object ((lit "model", model) ∷ []))
    else if str_eq provider (lit "opencode-go")
    then if truthy opencode_key
      then ok (
          object (
            (lit "model", str (lit "openai/" ++ from_slash (text model) (text model)))
            ∷ (lit "api_key", opencode_key)
            ∷ (lit "base_url", str (lit "https://opencode.ai/zen/v1"))
            ∷ []))
      else err missing_api_key
    else ok (
        object
          ((lit "model", model) ∷ (if truthy api_key then (lit "api_key", api_key) ∷ [] else [])))

pub record Adapter : Type 0 where
  pub agent_id : Str
  pub agent_entrypoint_file : Value
  pub microagent_rel_path : Str
  pub agent_semantics : Str
  pub eval_mode_preamble : Str

abbrev pub default_eval_mode_preamble : Str
default_eval_mode_preamble =
    lit "This is an automated eval run. "
    ++ (lit "Auto-proceed at every gate without pausing for user confirmation. "
        ++ lit "Select the first/recommended option at every decision point.")

abbrev pub text_or : Str → Value → Str
text_or default v = if full_text v then text v else default

unfoldable pub resolve_adapter : Value → Result Str Adapter
resolve_adapter cfg =
    let given = get (lit "adapter") cfg in
    let adapter = if is_object given then given else object [] in
    let file = get (lit "agent_entrypoint_file") adapter in
    if full_text (get (lit "agent_id") adapter)
    then ok (record {
      agent_id = text (get (lit "agent_id") adapter);
      agent_entrypoint_file = if full_text file then file else null;
      microagent_rel_path =
          text_or (lit ".openhands/microagents/repo.md")
            (get (lit "microagent_install_path") adapter);
      agent_semantics =
          text_or (lit "openhands-microagent with skill-via-bash loading")
            (get (lit "agent_semantics") adapter);
      eval_mode_preamble =
          text_or default_eval_mode_preamble (get (lit "eval_mode_preamble") adapter);
    })
    else err missing_agent_id

-- The configuration, with the daemon's URL from the environment if there is one.
unfoldable pub with_server_url : List (Str × Value) → Value → Value
with_server_url env cfg =
    let url = lookup (lit "OPENHANDS_SERVER_URL") env in
    if full_text url then object (put (lit "openhands_server_url") url (entries cfg)) else cfg

abbrev pub with_model : Value → List (Str × Value) → List (Str × Value)
with_model model tier =
    if full_text model then put (lit "model") (str (trim (text model))) tier else tier

-- The model of the configuration goes before that of the file, and the environment's before both.
unfoldable pub resolve_tier_config : List (Str × Value) → Value → Value → Value
resolve_tier_config env config cfg =
    let tier = get (text (get (lit "agent") config)) (get (lit "agent") cfg) in
    object (
      with_model (lookup (lit "OPENHANDS_MODEL_OVERRIDE") env)
        (with_model (get (lit "model") config) (entries (or_else tier (object [])))))
