-- ===== src/Cli/Arguments/Runs.antt =====
-- What the guard makes of the command lines of `smoke` and `regression`.
use promptfoo_eval_harness.Prelude.{
  ◌≡◌, refl, ap, ◌∙◌, List, [], ◌∷◌, ◌++◌, append_assoc, append-nil, Str, lit, str_eq, str_eq_refl,
  All, ok,
}
use promptfoo_eval_harness.Guard.Argv.{split_from, invocations, split_promptfoo_invocations}
use promptfoo_eval_harness.Guard.Argv.Laws.{IsConfig, IsShared, split_from-shared}
use promptfoo_eval_harness.Cli.Arguments.{
  config_flags, smoke_flags, regression_flags, build_promptfoo_args,
}

split_from-config_flags :
    (shared done configs : List Str)
    → All IsConfig configs
    → split_from shared done (config_flags configs) ≡ ok (shared, done ++ configs)
unfolding split_from config_flags
split_from-config_flags shared done [] h = rw append-nil
split_from-config_flags shared done (c ∷ configs) (h, hs) =
    rw (str_eq_refl (lit "-c"), h)
      (split_from-config_flags shared (done ++ c ∷ []) configs hs
        ∙ ap (λ cs. ok (shared, cs)) (append_assoc done (c ∷ []) configs))

split-config_flags :
    (shared configs : List Str)
    → All IsShared shared
    → All IsConfig configs
    → split_promptfoo_invocations (shared ++ config_flags configs) ≡ ok (invocations shared configs)
unfolding split_promptfoo_invocations
split-config_flags shared configs s h =
    rw (split_from-shared shared [] [] (config_flags configs) s)
      (rw (split_from-config_flags shared [] configs h) refl)

smoke-IsShared : All IsShared smoke_flags
unfolding str_eq lit
smoke-IsShared = (refl, (refl, (refl, (refl, tt))))

regression-IsShared : All IsShared regression_flags
unfolding str_eq lit
regression-IsShared = (refl, (refl, tt))

-- The command line of a command, and what the guard splits it into.
abbrev pub RunsEach : Str → List Str → List Str → List Str → Type 0
RunsEach command shared rest configs =
    (argv : List Str) × (build_promptfoo_args command rest configs ≡ ok argv)
    × (split_promptfoo_invocations argv ≡ ok (invocations shared configs))

-- `smoke` and `regression` build a command line that the guard splits into one invocation for each
-- package configuration, in order and under the same flags, only `smoke` with the filter; where
-- there is none, into one invocation that names no configuration. What stands behind the command
-- is dropped.
pub build_promptfoo_args-split :
    (rest configs : List Str)
    → All IsConfig configs
    → RunsEach (lit "smoke") smoke_flags rest configs
      × RunsEach (lit "regression") regression_flags rest configs
unfolding build_promptfoo_args str_eq lit
build_promptfoo_args-split rest configs h = (
  (_, refl, split-config_flags smoke_flags configs smoke-IsShared h),
  (_, refl, split-config_flags regression_flags configs regression-IsShared h),
)
