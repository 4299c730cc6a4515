-- ===== src/TierConfig.antt =====
-- scripts/framework/eval-tier-config.js: the tier configuration of the evaluation suites, in its two
-- versions, the runtime table, and the OpenCode agents that the tiers name.
pub mod Shape
pub mod RuntimeFields
pub mod Load
mod Tests
