-- ===== src/Cli/Packages.antt =====
-- scripts/framework/package-discovery.js: the configurations below `packages`.
pub mod Found
pub mod Listed
use promptfoo_eval_harness.Prelude.{
  Bool, List, [], ◌∷◌, ◌++◌, Option, none, some, Str, lit, includes, sort, if◌then◌else◌, Result,
  ok, err, ◌>>=◌,
}
use promptfoo_eval_harness.Paths.Relative.{relative, join_below}

-- What `readdirSync` gives of a directory, and of those in it: the entries in order, each with its
-- name, or what it throws.
mutual
  pub data Directory : Type 0 where
    unreadable : Str → Directory
    listing : Entries → Directory

  pub data Entries : Type 0 where
    file : Str → Entries → Entries
    other : Str → Entries → Entries
    directory : Str → Directory → Entries → Entries
    end : Entries

-- `/^(promptfooconfig|suite)\.(json|ya?ml)$/`: the texts that it matches.
abbrev config_names : List Str
config_names =
    lit "promptfooconfig.json"
    ∷ lit "promptfooconfig.yaml"
    ∷ lit "promptfooconfig.yml"
    ∷ lit "suite.json"
    ∷ lit "suite.yaml"
    ∷ lit "suite.yml"
    ∷ []

unfoldable pub is_promptfoo_config_file : Str → Bool
is_promptfoo_config_file name = includes config_names name

-- On POSIX the separator is the slash already.
unfoldable mutual
  pub walk_configs : Str → Str → Directory → Result Str (List Str)
  walk_configs eval_root current (unreadable message) = err message
  walk_configs eval_root current (listing entries) = walk_entries eval_root current entries

  pub walk_entries : Str → Str → Entries → Result Str (List Str)
  walk_entries eval_root current end = ok []
  walk_entries eval_root current (file name entries) = do
    rest ← walk_entries eval_root current entries
    ok (
        if is_promptfoo_config_file name
        then relative eval_root (join_below current name) ∷ rest
        else rest)
  walk_entries eval_root current (other name entries) = walk_entries eval_root current entries
  walk_entries eval_root current (directory name inner entries) = do
    below ← walk_configs eval_root (join_below current name) inner
    rest ← walk_entries eval_root current entries
    ok (below ++ rest)

-- What is at `packages` below the root, if there is anything.
unfoldable pub discover_package_configs : Str → Option Directory → Result Str (List Str)
discover_package_configs eval_root none = ok []
discover_package_configs eval_root (some packages) = do
  configs ← walk_configs eval_root (join_below eval_root (lit "packages")) packages
  ok (sort configs)
