-- ===== src/Cli/Arguments.antt =====
-- `buildPromptfooArgs` of bin/ad-evals.js: the command line for the guard.
pub mod Runs
use promptfoo_eval_harness.Prelude.{
  List, [], ◌∷◌, ◌++◌, Str, lit, str_eq, is_empty, if◌then◌else◌, Result, ok, err,
}

pub data Error : Type 0 where
  usage : Error
  unknown_command : Str → Error

-- `packageConfigs.flatMap((configPath) => ['-c', configPath])`
unfoldable pub config_flags : List Str → List Str
config_flags [] = []
config_flags (config ∷ configs) = lit "-c" ∷ config ∷ config_flags configs

abbrev pub smoke_flags : List Str
smoke_flags = lit "eval" ∷ lit "--no-cache" ∷ lit "--filter-pattern" ∷ lit "^\\[smoke\\]" ∷ []

abbrev pub regression_flags : List Str
regression_flags = lit "eval" ∷ lit "--no-cache" ∷ []

abbrev run_args : List Str → Result Error (List Str)
run_args [] = err usage
run_args (config ∷ extra) =
    if is_empty config then err usage else ok (regression_flags ++ (lit "-c" ∷ config ∷ extra))

abbrev passed_on : List Str → List Str
passed_on [] = []
passed_on (token ∷ rest) = if str_eq token (lit "--") then rest else token ∷ rest

unfoldable pub build_promptfoo_args : Str → List Str → List Str → Result Error (List Str)
unfolding config_flags
build_promptfoo_args command rest package_configs =
    if str_eq command (lit "smoke")
    then ok (smoke_flags ++ config_flags package_configs)
    else if str_eq command (lit "regression")
    then ok (regression_flags ++ config_flags package_configs)
    else if str_eq command (lit "run")
    then run_args rest
    else if str_eq command (lit "view")
    then ok (lit "view" ∷ rest)
    else if str_eq command (lit "promptfoo")
    then ok (passed_on rest)
    else err (unknown_command command)
