-- ===== src/Bridge.antt =====
-- scripts/framework/_node_bridge.js: the provider that Promptfoo calls for every row. It reads the
-- provider's configuration and the turns of the row, drives a session, and reports what happened.
pub mod Runtime
pub mod Report
pub mod Turns
pub mod Ipc
pub mod Subprocess
pub mod Inproc
pub mod Call
mod Tests
