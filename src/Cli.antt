-- ===== src/Cli.antt =====
-- bin/ad-evals.js and scripts/framework/package-discovery.js: which configurations a command runs
-- Promptfoo on.
pub mod Arguments
pub mod Packages
mod Tests
