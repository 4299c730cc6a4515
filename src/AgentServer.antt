-- ===== src/AgentServer.antt =====
-- scripts/framework/agent-server-lifecycle.js: the one daemon of a run, from its start to its stop.
pub mod Ready
pub mod Daemon
mod Tests
