-- ===== src/TierConfig/Load/Sound.antt =====
-- What holds of a suite that loads.
use promptfoo_eval_harness.Prelude.{
  ◌≡◌, refl, ap, subst, true, false, not, ◌&&◌, ◌||◌, [], arith, Str, lit, str_eq, All, All-mono,
  Result, ok, err, guard, each, >>=-returned, guard_iff, each_iff, each-guard_iff, ok-injective,
  both_iff,
}
use promptfoo_eval_harness.Paths.{is_within, resolve_root, resolve_within_root}
use promptfoo_eval_harness.Js.{
  Value, object, get, has, entries, or_else, truthy, is_plain, is_string, text, is_undefined,
  is_number,
}
use promptfoo_eval_harness.TierConfig.RuntimeFields.{
  validate_runtime, normalize_empty_output_retries, keys, is_full_string,
}
use promptfoo_eval_harness.TierConfig.RuntimeFields
use promptfoo_eval_harness.TierConfig.Load.{
  Error, missing_tier, bad_agent, bad_agent_field, bad_permission, bad_tier_agent,
  unexpected_tier_field, missing_agent, config_outside_root, project_outside_root, Suite,
  required_tiers, required_agent_permission, agent_texts, is_text, is_positive, grants,
  validate_open_code_eval_agent, check_required, check_tier, check_tiers, or_runtime_error,
  load_open_code_agents, load_eval_tier_config, only_agents,
}

-- An agent that an evaluation may run: an object, described, primary, with a number for its
-- temperature if it has one, with a bound on its steps, with the permissions asked for, and with no
-- tools of its own.
pub record IsAgent (agent : Value) : Type 0 where
  pub whole : is_plain agent ≡ true
  pub described : All (λ f. is_full_string (get f agent) ≡ true) agent_texts
  pub primary : is_text (lit "primary") (get (lit "mode") agent) ≡ true
  pub tempered :
      (is_undefined (get (lit "temperature") agent) || is_number (get (lit "temperature") agent))
      ≡ true
  pub bounded : is_positive (get (lit "steps") agent) ≡ true
  pub permitted : All (λ p. grants agent p ≡ true) required_agent_permission
  pub plain : is_plain (get (lit "permission") agent) ≡ true
  pub no_tools : has (lit "tools") (entries agent) ≡ false

validate_open_code_eval_agent-IsAgent :
    (name : Str) (agent : Value) → validate_open_code_eval_agent name agent ≡ ok tt → IsAgent agent
unfolding validate_open_code_eval_agent
validate_open_code_eval_agent-IsAgent name agent h =
    let (to, from) = both_iff _ _ _ _ (guard_iff (is_plain agent) (bad_agent name)) (
      both_iff _ _ _ _
        (each-guard_iff _ (λ f. is_full_string (get f agent)) (bad_agent_field name)
          (λ f. (λ k. k, λ k. k)) agent_texts)
        (both_iff _ _ _ _
          (guard_iff (is_text (lit "primary") (get (lit "mode") agent))
            (bad_agent_field name (lit "mode")))
          (both_iff _ _ _ _
            (guard_iff
              (is_undefined (get (lit "temperature") agent)
                || is_number (get (lit "temperature") agent))
              (bad_agent_field name (lit "temperature")))
            (both_iff _ _ _ _
              (guard_iff (is_positive (get (lit "steps") agent))
                (bad_agent_field name (lit "steps")))
              (both_iff _ _ _ _
                (guard_iff (is_plain (get (lit "permission") agent))
                  (bad_agent_field name (lit "permission")))
                (both_iff _ _ _ _
                  (each-guard_iff _ (grants agent) (λ p. bad_permission name p.0)
                    (λ p. (λ k. k, λ k. k)) required_agent_permission)
                  (guard_iff (not (has (lit "tools") (entries agent)))
                    (bad_agent_field name (lit "tools"))))))))) in
    let (a, (b, (c, (d, (e, (f, (g, k))))))) = to h in
    record {
      whole = a;
      described = b;
      primary = c;
      tempered = d;
      bounded = e;
      permitted = g;
      plain = f;
      no_tools = ground arith;
    }

-- A tier names an agent of the suite that may be run, and has no other field.
abbrev pub IsSoundTier : Value → Str × Value → Type 0
IsSoundTier agents (name, tier) =
    (is_full_string (get (lit "agent") tier) ≡ true)
    × All (λ f. str_eq f (lit "agent") ≡ true) (keys (entries tier))
    × IsAgent (get (text (get (lit "agent") tier)) agents)

check_tier-IsSoundTier :
    (agents : Value) (t : Str × Value) → check_tier agents t ≡ ok tt → IsSoundTier agents t
unfolding check_tier
check_tier-IsSoundTier agents (name, tier) h =
    let agent = text (get (lit "agent") tier) in
    let (u, a, h1) =
      >>=-returned (guard (is_full_string (get (lit "agent") tier)) (bad_tier_agent name)) _ h in
    let (v, b, h2) =
      >>=-returned
        (each (λ f. guard (str_eq f (lit "agent")) (unexpected_tier_field name f))
          (keys (entries tier)))
        _ h1 in
    let (w, c, d) =
      >>=-returned (guard (truthy (get agent agents)) (missing_agent name agent)) _ h2 in
    (
      (guard_iff _ _).0 a,
      (each-guard_iff _ (λ f. str_eq f (lit "agent")) (unexpected_tier_field name)
            (λ f. (λ k. k, λ k. k)) (keys (entries tier))).0
          b,
      validate_open_code_eval_agent-IsAgent agent _ d,
    )

check_tiers_ok :
    (agents tiers : Value)
    → check_tiers agents tiers ≡ ok tt
    → All
        (λ name. (truthy (get name tiers) && is_string (get (lit "agent") (get name tiers))) ≡ true)
        required_tiers
      × All (IsSoundTier agents) (entries tiers)
unfolding check_tiers check_required
check_tiers_ok agents tiers h =
    let (u, required, rest) = >>=-returned (each (check_required tiers) required_tiers) _ h in
    (
      (each-guard_iff _
            (λ name. truthy (get name tiers) && is_string (get (lit "agent") (get name tiers)))
            missing_tier (λ name. (λ k. k, λ k. k)) required_tiers).0
          required,
      All-mono (λ t. check_tier agents t ≡ ok tt) (IsSoundTier agents)
          (check_tier-IsSoundTier agents) _ ((each_iff (check_tier agents) (entries tiers)).0 rest),
    )

pub record IsSound (base_dir project_root : Str) (parsed : Value) (suite : Suite) : Type 0 where
  pub runtime_valid : validate_runtime suite.runtime ≡ ok tt
  pub config_within : is_within suite.opencode_config (resolve_root base_dir) ≡ true
  pub project_within : is_within suite.project_dir (resolve_root project_root) ≡ true
  pub required :
      All
        (λ name.
          let tier = get name (or_else (get (lit "tiers") parsed) (object [])) in
          (truthy tier && is_string (get (lit "agent") tier)) ≡ true)
        required_tiers
  pub sound_tiers :
      All (IsSoundTier suite.agents) (entries (or_else (get (lit "tiers") parsed) (object [])))
  pub kept : suite.tiers ≡ only_agents (entries (or_else (get (lit "tiers") parsed) (object [])))

or_runtime_error-ok {ℓ} :
    {A : Type ℓ} (r : Result RuntimeFields.Error A) {a : A} → or_runtime_error r ≡ ok a → r ≡ ok a
or_runtime_error-ok (ok b) h = ap ok (ok-injective h)
or_runtime_error-ok (err e) h = cc

resolve_within_root-is_within :
    (root path allowed : Str) (e : Error) (p : Str)
    → resolve_within_root root path allowed e ≡ ok p
    → is_within p (resolve_root allowed) ≡ true
unfolding resolve_within_root
resolve_within_root-is_within root path allowed e p h = ground arith

-- A suite that loads has a valid runtime table; its OpenCode configuration lies under the base
-- directory and its project directory under the project's root; the four required tiers are there;
-- and every tier names, and holds nothing else, an agent of the suite: an object that has a
-- description, a model and the mode `primary`, a number for its temperature if it has one, a
-- positive whole number of steps, every permission required, and no tools.
pub load_eval_tier_config-IsSound :
    (base_dir project_root : Str) (read_json : Str → Result Error Value) (parsed : Value)
    (suite : Suite)
    → load_eval_tier_config base_dir project_root read_json parsed ≡ ok suite
    → IsSound base_dir project_root parsed suite
unfolding load_eval_tier_config
load_eval_tier_config-IsSound base_dir project_root read_json parsed suite h =
    let runtime = or_else (get (lit "runtime") parsed) (object []) in
    let tiers = or_else (get (lit "tiers") parsed) (object []) in
    let (u, valid, h1) = >>=-returned (or_runtime_error (validate_runtime runtime)) _ h in
    let (config, config_ok, h2) =
      >>=-returned
        (resolve_within_root base_dir (text (get (lit "opencode_config") runtime)) base_dir
          config_outside_root)
        _ h1 in
    let (agents, read, h3) = >>=-returned (load_open_code_agents (read_json config)) _ h2 in
    let (v, checked, h4) = >>=-returned (check_tiers agents tiers) _ h3 in
    let (project, project_ok, h5) =
      >>=-returned
        (resolve_within_root base_dir (text (get (lit "project_dir") runtime)) project_root
          project_outside_root)
        _ h4 in
    let (retries, counted, h6) =
      >>=-returned
        (or_runtime_error
          (normalize_empty_output_retries (get (lit "empty_output_retries") runtime)))
        _ h5 in
    let (required, named) = check_tiers_ok agents tiers checked in
    subst (IsSound base_dir project_root parsed) (ok-injective h6) (record {
      runtime_valid = or_runtime_error-ok (validate_runtime runtime) valid;
      config_within = resolve_within_root-is_within _ _ _ config_outside_root _ config_ok;
      project_within = resolve_within_root-is_within _ _ _ project_outside_root _ project_ok;
      required = required;
      sound_tiers = named;
      kept = refl;
    })
