-- ===== src/Validate.antt =====
-- scripts/framework/validate-package-config.js: every fault of a package's configuration, with the
-- path of what is at fault and what may be said of it.
pub mod Received
pub mod Turns
pub mod Providers
pub mod Package
mod Tests
