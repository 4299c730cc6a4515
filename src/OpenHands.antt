-- ===== src/OpenHands.antt =====
-- scripts/framework/openhands-agent-server-provider.js: the provider that drives the agent server,
-- over HTTP for the start of a conversation and over a WebSocket for its events.
pub mod Settings
pub mod Stream
pub mod Turn
mod Tests
