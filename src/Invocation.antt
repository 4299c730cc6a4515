-- ===== src/Invocation.antt =====
-- scripts/framework/opencode-cli-invocation.js: which OpenCode CLI generation a runner speaks, and
-- the command line and working directory of a run.
pub mod Split
pub mod Major
pub mod Args
mod Tests
