-- ===== src/Cli/Tests.antt =====
-- Runs of the commands' arguments and of the discovery, and the theorems at concrete inputs.
use promptfoo_eval_harness.Prelude.{
  ◌≡◌, refl, List, [], ◌∷◌, Str, lit, str_eq, includes, sort, IsSorted, ends_with, some, ok,
}
use promptfoo_eval_harness.Paths.{read_char, split_slash, resolve_from, render}
use promptfoo_eval_harness.Paths.Relative.{
  parts_of, join_slash, climb, relative_parts, relative, join_below,
}
use promptfoo_eval_harness.Cli.Arguments.{smoke_flags, regression_flags}
use promptfoo_eval_harness.Cli.Arguments.Runs.{RunsEach, build_promptfoo_args-split}
use promptfoo_eval_harness.Cli.Packages.{
  Directory, listing, file, other, directory, end, is_promptfoo_config_file,
  discover_package_configs, walk_configs,
}
use promptfoo_eval_harness.Cli.Packages.Found.{IsTree, IsConfigIn, Lists}
use promptfoo_eval_harness.Cli.Packages.Listed.{discover_package_configs-Lists}

abbrev two_configs : List Str
two_configs = lit "packages/a/suite.yml" ∷ lit "packages/promptfooconfig.json" ∷ []

build_promptfoo_args-split_example :
    RunsEach (lit "smoke") smoke_flags [] two_configs
    × RunsEach (lit "regression") regression_flags [] two_configs
unfolding lit
build_promptfoo_args-split_example = build_promptfoo_args-split [] two_configs (refl, (refl, tt))

abbrev two_packages : Directory
two_packages = listing (
    file (lit "promptfooconfig.json") (
      file (lit "notes.md")
        (directory (lit "a") (listing (file (lit "suite.yml") (other (lit "link") end))) end)))

two_packages-IsTree : IsTree two_packages
unfolding IsTree str_eq lit
two_packages-IsTree = (
  (refl, refl, refl, refl),
  ((refl, refl, refl, refl), ((refl, refl, refl, refl), ((refl, refl, refl, refl), tt), tt)),
)

discover_package_configs-Lists_example :
    (paths : List Str) × (discover_package_configs (lit "/r/evals") (some two_packages) ≡ ok paths)
    × IsSorted paths
    × Lists (lit "packages" ∷ []) (IsConfigIn two_packages) paths
discover_package_configs-Lists_example =
    discover_package_configs-Lists (lit "/r/evals") two_packages two_packages-IsTree

finds_two : discover_package_configs (lit "/r/evals") (some two_packages) ≡ ok two_configs
unfolding discover_package_configs walk_configs ends_with is_promptfoo_config_file includes relative
    join_below parts_of split_slash read_char resolve_from render relative_parts climb join_slash
    sort str_eq lit
finds_two = refl
