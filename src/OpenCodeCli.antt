-- ===== src/OpenCodeCli.antt =====
-- scripts/framework/opencode-cli-provider.js: the provider that runs the OpenCode CLI once for each
-- turn, and again while its output is blank.
pub mod Attempts
pub mod Count
pub mod Run
mod Tests
use promptfoo_eval_harness.Prelude.{
  ℕ, zero, suc, ◌+◌, Bool, true, false, not, ◌&&◌, List, [], ◌∷◌, ◌++◌, Str, lit, str_eq, is_empty,
  is_blank, trim, all, if◌then◌else◌, Result, ok, err,
}
use promptfoo_eval_harness.Paths.{resolve}
use promptfoo_eval_harness.Paths.Relative.{join_below}
use promptfoo_eval_harness.Js.{
  pos, Number, integer, Value, undefined, num, str, object, array, get, lookup, put, or_else,
  truthy, is_string, text, decimal,
}
use promptfoo_eval_harness.Invocation.Major.{Major, v1, v2, Cache, Probe, Resolved, resolve_major}
use promptfoo_eval_harness.Invocation.Args.{build_run_args, resolve_spawn_cwd}

-- What the module reads of its surroundings: `env` is `process.env`, `to_number` the runtime's
-- `Number` on a text, and `probe` what `opencode --version` answers if it is asked.
pub record Surroundings : Type 0 where
  pub eval_root : Str
  pub env : List (Str × Value)
  pub to_number : Str → Number
  pub probe : Probe

-- What the runner is called with besides the words.
pub record RunOptions : Type 0 where
  pub cwd : Str
  pub env : List (Str × Value)
  pub signal : Value

abbrev pub empty_output : ℕ → Str
empty_output attempts =
    lit "OpenCode CLI returned empty output after " ++ (decimal attempts ++ lit " attempt(s)")

abbrev pub bad_retries : Str
bad_retries = lit "OpenCode CLI provider requires empty_output_retries to be a non-negative integer"

abbrev pub missing_fields : Str
missing_fields =
    lit "OpenCode CLI provider requires agent, opencode_config, project_dir, format, and log_level"

unfoldable pub normalize_retry_count : Value → Result Str ℕ
normalize_retry_count undefined = ok 0
normalize_retry_count (num (integer (pos n))) = ok n
normalize_retry_count _ = err bad_retries

abbrev pub required_fields : List Str
required_fields =
    lit "agent" ∷ lit "opencode_config" ∷ lit "project_dir" ∷ lit "format" ∷ lit "log_level" ∷ []

unfoldable pub is_complete : Value → Bool
is_complete config =
    all (λ f. is_string (get f config) && not (is_blank (text (get f config)))) required_fields

abbrev pub major_number : Major → Value
major_number v1 = num (integer (pos 1))
major_number v2 = num (integer (pos 2))

abbrev pub is_mock : List (Str × Value) → Bool
is_mock env =
    let mode = lookup (lit "OPENCODE_MOCK_MODE") env in
    is_string mode && str_eq (text mode) (lit "1")

-- `{ output }` or `{ error }`
pub data Reply : Type 0 where
  output error : Str → Reply

abbrev pub reply_of : Result Str Str → Reply
reply_of (ok text) = output text
reply_of (err message) = error message

-- The session besides its configuration and its runner.
pub record Session : Type 0 where
  pub turn_count : ℕ
  pub is_shut_down : Bool

unfoldable pub init : Session
init = record { turn_count = 0; is_shut_down = false }

unfoldable pub finalize : Session → Value
finalize session = object (
    (lit "final_text", str [])
    ∷ (lit "turns_completed", num (integer (pos (session.turn_count))))
    ∷ (lit "tool_calls", array [])
    ∷ (lit "metadata", object [])
    ∷ [])

unfoldable pub shutdown : Session → Session
shutdown session = record { turn_count = session.turn_count; is_shut_down = true }

abbrev pub counted : Session → Session
counted session = record {
  turn_count = suc (session.turn_count);
  is_shut_down = session.is_shut_down;
}

-- `this.providerId`
abbrev pub provider_id : Value → Value
provider_id options = or_else (get (lit "id") options) (str (lit "opencode:cli"))

-- `runner` is what a session runs: the result or the message of what is thrown, and the world
-- afterwards.
module _ {W : Type 0} (runner : List Str → RunOptions → W → Result Str Str × W)
    (around : Surroundings) where
  -- What one run answers, where `again` goes on with the next.
  unfoldable pub settle : Result Str Str × W → (W → Result Str Str × W) → Result Str Str × W
  settle (err message, world) again = (err message, world)
  settle (ok printed, world) again =
      if is_empty (trim printed) then again world else (ok (trim printed), world)

  -- The loop, on the number of attempts that are left.
  unfoldable pub attempts : ℕ → ℕ → List Str → RunOptions → W → Result Str Str × W
  unfolding settle
  attempts zero max_attempts words options world = (err (empty_output max_attempts), world)
  attempts (suc left) max_attempts words options world =
      settle (runner words options world) (attempts left max_attempts words options)

  abbrev pub state_home : Value
  state_home =
      or_else (lookup (lit "XDG_STATE_HOME") (around.env))
        (str (join_below (around.eval_root) (lit ".tmp/opencode-state")))

  unfoldable pub words_of : Str → Value → Value → List Str
  words_of prompt config major =
      build_run_args (around.to_number) (record {
        major = major;
        agent = text (get (lit "agent") config);
        project_dir = resolve (around.eval_root) (text (get (lit "project_dir") config));
        format = get (lit "format") config;
        log_level = get (lit "log_level") config;
        model_override = lookup (lit "OPENCODE_MODEL") (around.env);
        print_logs = get (lit "print_logs") config;
      })
      ++ prompt ∷ []

  unfoldable pub options_of : Value → Value → Value → RunOptions
  options_of config major signal = record {
    cwd =
        resolve_spawn_cwd (around.to_number) major (around.eval_root)
          (resolve (around.eval_root) (text (get (lit "project_dir") config)));
    env = put (lit "XDG_STATE_HOME") state_home (
        put (lit "OPENCODE_CONFIG")
          (str (resolve (around.eval_root) (text (get (lit "opencode_config") config))))
          (around.env));
    signal = signal;
  }

  -- The result, the cache of the generations, and the world afterwards.
  unfoldable pub call_with_empty_output_retries :
      Str → Value → Value → Cache → W → (Result Str Str × W) × Cache
  unfolding attempts words_of options_of
  call_with_empty_output_retries prompt config signal cache world =
      let resolved =
        resolve_major (around.to_number)
          (record { runner_command = str (lit "opencode"); env = around.env }) cache
          (around.probe) in
      let major = major_number (resolved.major) in
      elim (normalize_retry_count (get (lit "empty_output_retries") config)) [
        | err message ↦ ((err message, world), cache)
        | ok retries ↦ (
          attempts (suc retries) (suc retries) (words_of prompt config major)
              (options_of config major signal) world,
          resolved.cache,
        )
      ]

  -- What a turn leaves: the reply, the session, and the rest.
  pub record After : Type 0 where
    pub reply : Reply
    pub session : Session
    pub cache : Cache
    pub world : W

  unfoldable pub turned : Session → (Result Str Str × W) × Cache → After
  turned session ((ok text, world), cache) = record {
    reply = output text;
    session = counted session;
    cache = cache;
    world = world;
  }
  turned session ((err message, world), cache) = record {
    reply = error message;
    session = session;
    cache = cache;
    world = world;
  }

  unfoldable pub turn : Value → Session → Str → Cache → W → After
  unfolding turned
  turn config session input cache world =
      if is_mock (around.env)
      then record {
        reply =
            output
              (lit "[mock] turn " ++ (decimal (suc (session.turn_count)) ++ (lit ": " ++ input)));
        session = counted session;
        cache = cache;
        world = world;
      }
      else if is_complete config
      then turned session (call_with_empty_output_retries input config undefined cache world)
      else record { reply = error missing_fields; session = session; cache = cache; world = world }

  abbrev replied : (Result Str Str × W) × Cache → (Reply × W) × Cache
  replied ((result, world), cache) = ((reply_of result, world), cache)

  unfoldable pub call_api : Value → Str → Value → Cache → W → (Reply × W) × Cache
  call_api config prompt signal cache world =
      if is_mock (around.env)
      then ((output (lit "[mock] " ++ prompt), world), cache)
      else if is_complete config
      then replied (call_with_empty_output_retries prompt config signal cache world)
      else ((error missing_fields, world), cache)
