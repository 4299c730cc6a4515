-- ===== src/Guard.antt =====
-- scripts/framework/run-promptfoo-with-guard.js: runs Promptfoo once per configuration and fails a
-- run that dirtied the repository or left workspaces behind.
pub mod Snapshot
pub mod Argv
pub mod Run
mod Tests
