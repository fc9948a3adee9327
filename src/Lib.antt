-- ===== src/Lib.antt =====
-- Verification of the agent service nanobot (package `nanobot`, also installed as `eeebot`): an
-- assistant that holds conversations over chat channels, keeps a memory, and runs scheduled jobs.
--
-- The parts modelled, and how they interact:
-- - the cron service (nanobot/cron/types.py, nanobot/cron/service.py), in Cron: the agent's cron
--   tool and the command line add, list, remove, enable and run jobs; a timer task wakes the service
--   at the earliest job, runs what is due through a callback, reschedules it and writes the store;
-- - the sessions (nanobot/session/manager.py, `safe_filename` of nanobot/utils/helpers.py), in
--   Session: the agent's loop appends messages, takes the history for the provider, and saves each
--   session to a JSONL file, which is repaired when it is damaged;
-- - the memory (nanobot/agent/memory.py), in Memory: old messages of a session are archived into
--   HISTORY.md and MEMORY.md by a call of the provider, and the session's mark moves past them;
-- - the promotions (nanobot/runtime/promotion.py), in Runtime: what the program proposes to change of
--   itself is a candidate, a JSON file, whose readiness is recorded and which a review decides on;
-- - the base of the providers (nanobot/providers/base.py), in Providers: a request's messages are
--   cleaned, and a call that fails in a passing way is made again;
-- - the splitting of long messages for the channels (`split_message` of nanobot/utils/helpers.py), in
--   Text;
-- - the heartbeat (nanobot/heartbeat/service.py), in Heartbeat: from time to time the provider decides
--   on the text of HEARTBEAT.md whether tasks are run through the agent, and their response delivered;
-- - the registry of the agent's tools (nanobot/agent/tools/registry.py), in Tools;
-- - the agent (nanobot/agent/loop.py, nanobot/agent/context.py, the messages of nanobot/bus), in
--   Agent: a message from a channel opens its session, lets the memory consolidate, runs the provider
--   and the tools in turn, saves the new messages, and is answered;
-- - the schemas of the tools (nanobot/agent/tools/base.py), in Tools/Schema: before the registry runs
--   a tool, its parameters are cast and validated;
-- - the releases (nanobot/runtime/autoevolve.py), in Runtime/Release: a candidate is unpacked and
--   linked as the current release, checked, and rolled back when it fails;
-- - the agent's cron tool (nanobot/agent/tools/cron.py), in Cron/Tool, which calls the cron service;
-- - the checks of URLs against private networks (nanobot/security/network.py), in Security;
-- - the agent's tool that reads files (`ReadFileTool` of nanobot/agent/tools/filesystem.py), in
--   Tools/Files;
-- - Prelude: Boolean tests, lists and integers on native numbers, Python methods that may raise
--   (Prelude/Effects), and JSON values (Prelude/Json).
--
-- Which file models what:
-- - Cron/Types: the dataclasses. Cron/Doc: a job as the store file has it, `decode_job` for the loop
--   of `_load_store` and `encode_job` for that of `_save_store`. Cron/Store: the state of
--   `CronService`, `_load_store`, `_save_store`. Cron/Timer: `_compute_next_run`,
--   `_get_next_wake_ms`, `_arm_timer` with its `tick`, `start`, `stop`, `_on_timer`, `_execute_job`.
--   Cron/Jobs: `list_jobs`, `add_job`, `remove_job`, `enable_job`, `run_job`, `get_job`, `status`.
--   The proofs stand in Cron/RoundTrip, Wake, Runs, Shape, Events, Saving, Removal, Adding, Listing
--   and Reload.
-- - Session/Message: `Session` and its methods. Session/Manager: the cache, the files and the names
--   of the files; Session/Manager/Files: `_load`, `_repair`, `save`, `get_or_create`, `invalidate`.
--   The proofs stand in Session/History and Session/Recovery.
-- - Memory/Store: the state of `MemoryStore` and the arguments of the tool. Memory/Consolidate:
--   `consolidate`, `_fail_or_raw_archive`, `_raw_archive`, `archive_messages`. Memory/Policy:
--   `pick_consolidation_boundary` and `maybe_consolidate_by_tokens`. The proofs stand in
--   Memory/Archive, Memory/Rounds and Memory/Progress.
-- - Runtime/Dict: Python dicts as JSON objects. Runtime/Promotion: the files and the tests on them;
--   Runtime/Promotion/Readiness: `complete_promotion_readiness_packet`; Runtime/Promotion/Inputs:
--   `supply_missing_promotion_readiness_inputs`; Runtime/Promotion/Review:
--   `review_promotion_candidate`. The proofs stand in Runtime/Promotion/Gate, Workflow and Verdict.
-- - Providers/Sanitize: `_sanitize_empty_content`, `_sanitize_request_messages`,
--   `_strip_image_content`; Providers/Retry: `chat_with_retry`. The proofs stand in Providers/Clean
--   and Providers/Attempts.
-- - Text: `split_message`; its fuel is the length of the message, of which each round takes some. The
--   proofs stand in Text/Chunks.
-- - Heartbeat: the whole service. The proofs stand in Heartbeat/Ticks and Heartbeat/Tasks.
-- - Tools: the registry, whose tools are parameters. The proofs stand in Tools/Names and Tools/Calls.
-- - Agent: `_strip_think`, `_tool_hint`, the messages to the provider. Agent/Loop: `_run_agent_loop`.
--   Agent/Turn: `_save_turn`. Agent/Process: the service, `build_messages`, the turn that
--   `_process_message` runs. Agent/Process/Handle: `_process_message` with its commands, `_dispatch`.
--   The proofs stand in Agent/Pairs, Agent/Appended, Agent/Bounded, Agent/Turn/Entries, Agent/Turn/Saved,
--   Agent/Process/Legal and Agent/Process/Sessions, and use Session/Sound and Memory/Steady: what the
--   sessions and the memory keep of every session.
-- - Tools/Schema: JSON schemas, `_TYPE_MAP`, `_resolve_type` and equality of JSON values.
--   Tools/Schema/Validate: `validate_params`; Tools/Schema/Cast: `cast_params`, with its proofs;
--   Tools/Schema/Valid: what a valid value is; Tools/Schema/Agrees: the proof for `_validate`.
-- - Runtime/Release: `write_guarded_evolution_state`, `write_candidate_blocked_status`,
--   `apply_candidate_release`, `rollback_release`; Runtime/Release/Health: `health_check_release` and
--   `write_failure_learning_artifact`. The proofs stand in Runtime/Release/Moves and Installed.
-- - Cron/Tool: the cron tool; the proofs stand in Cron/Tool/Plans, Returns and Calls.
-- - Security: the blocked networks; Security/Fetch: `validate_url_target`, `validate_resolved_url` and
--   `contains_internal_url`. The proofs stand in Security/Internal, Urls and Guard.
-- - Tools/Files: `read_file` behind the resolution of its path, on the lines that `splitlines` gives;
--   the proofs stand in Tools/Files/Pages.
--
-- State and errors. A method that changes state is a function from the state to a result and the next
-- state (`Method`), so that what was written before an exception stays written. Python's job objects
-- are shared: the store lists references into a heap, since a reload makes new objects while a run
-- still writes to an old one. The asyncio tasks run one at a time between two `await`s; the callback
-- of a job is a parameter that may call the service, raise or be cancelled.
--
-- Parameters: the clock, uuid4, zoneinfo, croniter and the modification times (Cron/World); the clock,
-- the moves and the writes of session files (`Disk`); the provider, the writes, the texts of
-- `json`, `str.lower`, `_format_messages` and the token estimates (Memory/Store and Memory/Policy);
-- the writes and the texts of paths (Runtime/Promotion); the answers of `chat` (Providers/Retry); the
-- system prompt, the time, the images, the runtime commands and the flag of the message tool
-- (Agent/Process); the texts of numbers and of `repr` (Tools/Schema); the writes, the links and the
-- archives (Runtime/Release); datetime (Cron/Tool); `urlparse`, the name server and the reading of
-- addresses (Security/Fetch).
-- Each call of a parameter that may answer differently has its own number.
--
-- Bounds. Times and counts are unbounded, as Python's integers. Loops are structural recursion: over
-- lists, or over the rounds that the code itself bounds (3 in `archive_messages`, 5 in
-- `maybe_consolidate_by_tokens`, 4 calls in `chat_with_retry`, `max_iterations` in
-- `_run_agent_loop`); only `split_message` has fuel, the length of the
-- text, of which each round takes some.
--
-- Not modelled: the text of log lines; reading errors of session files; a message of a session that
-- itself carries the key `_type`; `list_sessions`; the locks of the consolidation, which make the
-- loop of a session run alone; of the agent the contexts of the tools, MCP, the runtime commands, the
-- tasks of `run` with their stop and restart, the subagents, and when its background tasks run: which
-- of them are scheduled is recorded; schemas that are not well formed;
-- the tools but cron and read_file, and how read_file resolves its path;
-- of the self-evolution git, GitHub and what follows from them; the channels, the single providers,
-- the command line, the configuration, the dashboard and the coordinator of the runtime.
pub mod Prelude
pub mod Cron
pub mod Session
pub mod Memory
pub mod Tools
pub mod Runtime
pub mod Providers
pub mod Text
pub mod Heartbeat
pub mod Agent
pub mod Security
