-- ===== src/Resolve.antt =====
-- scripts/framework/resolve-promptfoo-config.js: how a package's configuration becomes the one that
-- promptfoo runs. File references move to the resolved configuration's directory, and the providers
-- of the selected tier take their place.
pub mod Urls
pub mod Entries
pub mod Blocks
pub mod Package
mod Tests
use promptfoo_eval_harness.Prelude.{Str, lit}
use promptfoo_eval_harness.Paths.Relative.{join_below}

-- What roots.js exports, both absolute and normalised.
pub record Roots : Type 0 where
  pub eval_root : Str
  pub framework_root : Str

abbrev pub tmp_root : Roots → Str
tmp_root roots = join_below (roots.eval_root) (lit ".tmp/resolved-configs")

-- A refusal carries the reference or the path that its message names.
pub data Error : Type 0 where
  reference_outside_root config_outside_root write_outside_root output_outside_root : Str → Error
