-- ===== src/Lib.antt =====
-- A verification library for the evaluation harness: the JavaScript under scripts/framework/ that
-- loads an evaluation's tiers, drives Promptfoo, and runs each row of an evaluation against a
-- provider.
--
-- The parts and how they interact. `run-promptfoo-with-guard.js` splits its command line into
-- Promptfoo invocations, runs each between two snapshots of the repository, undoes what a run
-- dirtied and checks that its workspaces are gone. Promptfoo calls `_node_bridge.js` once for each
-- row; the bridge picks a strategy from the provider kind, drives a session (a Python subprocess
-- over NDJSON, a module in the process, or the OpenCode command line) and reports every turn. The
-- tiers and their providers come from `eval-tier-config.js`; the OpenCode command line is put
-- together by `opencode-cli-invocation.js` and is run by `opencode-cli-provider.js`;
-- `validate-package-config.js` lists the faults of a package's configuration before it is run, and
-- `resolve-promptfoo-config.js` turns that configuration into the one that Promptfoo runs, with the
-- providers of the selected tier; `migrate-from-v0.js` rewrites an old tier configuration;
-- `ad-evals.js` builds the command line for the guard, with the configurations that
-- `package-discovery.js` finds; `agent-server-lifecycle.js` keeps the one daemon of a run, and
-- `openhands-agent-server-provider.js` drives it; `secret_redactor.js` cleans what the reports say of
-- errors.
--
-- Files, with the code that each models:
--   Prelude, Js, Paths: texts as lists of UTF-16 units, calls that may throw as `Result`, the values
--     of the language, and `path.resolve`, `path.relative`, `path.dirname` and `path.join` on POSIX
--     with the guard `resolveWithinRoot` of scripts/framework/eval-tier-config.js
--   TierConfig: scripts/framework/eval-tier-config.js. Shape is `parseTierConfig`, RuntimeFields is
--     `validateRuntime`, Load is `loadEvalTierConfig` with `validateOpenCodeEvalAgent`
--   Bridge: scripts/framework/_node_bridge.js. Turns is `parseProviderConfig` and `parseTurns`,
--     Report is `baseMetadata`, `normalizeErr`, `errorReturn` and `pushTurn`, Ipc is `_ipcSend`,
--     Subprocess and Inproc are the two kinds of session (`_dispatch`, `_dispatchInproc`), Call is
--     `callApi` with the command-line branch; Runtime is scripts/framework/secret_redactor.js
--   Guard: scripts/framework/run-promptfoo-with-guard.js. Snapshot is `detectCleanupViolations`, Argv
--     the command line, Run the restoration and `main`
--   Invocation: scripts/framework/opencode-cli-invocation.js. Split is `splitCommand`, Major is
--     `parseMajor` and `resolveMajor`, Args is `buildRunArgs` and `resolveSpawnCwd`
--   Validate: scripts/framework/validate-package-config.js. Received is `_safeReceived`, Turns is
--     `_validateTurns`, Providers is `_validateProvider` and `_validateAgentServerAdapter`, Package is
--     `validate`
--   Resolve: scripts/framework/resolve-promptfoo-config.js. Urls is `rewriteRelativeFileUrls` and the
--     paths, Entries is `resolveMultiProviderConfig` and `_buildBridgeProviderEntry`, Blocks is
--     `resolveMultiTurnProviderBlock` and the tests on shapes, Package is `resolveConfigFile` and
--     `writeResolvedConfig`
--   Migration: scripts/framework/migrate-from-v0.js, `_buildV1`, `_unifiedDiff` and `migrate`
--   OpenCodeCli: scripts/framework/opencode-cli-provider.js, the session, `callApi` and the retries;
--     Run is `runOpenCode`
--   AgentServer: scripts/framework/agent-server-lifecycle.js. Ready is `waitForReady`, Daemon is
--     `startAgentServerDaemon`, `stopAgentServerDaemon` and the signal handlers
--   OpenHands: scripts/framework/openhands-agent-server-provider.js. Settings is `resolveAdapter`,
--     `buildLlmPayload` and the configuration, Stream is the loop over the events of a conversation,
--     Turn is `_runOnce`, `_callWithRetries` and `callApi`
--   Cli: bin/ad-evals.js, `buildPromptfooArgs` (Arguments), and
--     scripts/framework/package-discovery.js (Packages)
--   Gates: scripts/framework/concurrency.js, `acquire` and the limits that it takes
--   The modules below these hold the proofs; every part has its runs and examples in Tests.
--
-- How state is modelled. A session's transcript, outputs and latencies are a `Progress` that each
-- turn passes on; what it does to the world is the list of its effects in order; the provider cache
-- and the cache of generations are passed in and out. What lies outside the program (a subprocess's
-- replies, a provider's answers, git, Promptfoo, the clock, `JSON.parse`, the compiled redaction
-- patterns) is a parameter: an arbitrary record of answers, over which every theorem quantifies.
--
-- Bounds. Loops run over lists, or over the attempts or the lines that are left, and are structural
-- recursion. Two run on fuel: the printing of a number's decimal digits has one step for each unit
-- of the number, and a number has fewer digits than that; `waitForReady` has two passes more than
-- there are polling intervals in the time it is given, and each pass takes at least one interval,
-- so it ends before the fuel does (AgentServer/Ready/Terminates). Counts are unbounded naturals, as
-- the lengths of arrays are far below the limits of the language's numbers.
--
-- Not modelled: failures of the file system, spawning, signals and the polling of a process that is
-- shutting down; the environment and the argument vector of a Python subprocess; the queues of calls
-- that wait at a gate; the fan-out over a directory of scenarios; the providers that talk to an SDK;
-- and what `ad-evals` does besides building the command line for the guard.
pub mod Prelude
pub mod Js
pub mod Paths
pub mod Invocation
pub mod TierConfig
pub mod Bridge
pub mod Guard
pub mod Validate
pub mod Resolve
pub mod Migration
pub mod OpenCodeCli
pub mod AgentServer
pub mod OpenHands
pub mod Cli
pub mod Gates
