-- ===== src/Lib.antt =====
-- A verification library beside the ZedHub connector for Home Assistant, the package
-- src/zediot_ha_hub_connector. The connector enrolls with a server (the core) and holds a session
-- with it, keeps what it observes in a durable queue, uploads the front of that queue behind a
-- circuit breaker, carries out the commands that the server delivers, and runs signed rules
-- locally. This library models its stores, its start, its tokens, its failure handling, its
-- command execution, its upload path and its local rules.
--
-- The parts, the files that model them, and how state and operations correspond to the code:
--
-- * Queue (queue.py, `BoundedUplinkQueue`). The state `Queue` holds the two settings, the rows of
--   the table `uplink_queue` in key order and the table `queue_metadata` as a map. Queue/Codec is
--   `json` as a parameter; Queue/Table the SQL that the methods share, `_metadata_int` and
--   `_set_metadata`; Queue/State the construction, `_expire_stale_queue`, `_record_drop` and the
--   reconciliation flag; Queue/Delivery the attempt marks, `acknowledge_through`,
--   `synchronize_with_server_cursor` and `ensure_next_sequence_at_least`; Queue/Uplink `enqueue`,
--   `peek`, `peek_all` and `summary`; Queue/Step a call of any of them as one step. Proofs are in
--   Queue/Rows (the table), Queue/Expiry, Queue/Invariant, Queue/Enqueue, Queue/History (runs of
--   calls), Queue/Cursor, Queue/Remaining, Queue/Accounting (drops) and Queue/Replay (attempts).
-- * Reliability (reliability.py). `CircuitBreaker` and its methods, with a list of calls for
--   threads that take its lock one after the other; Reliability/Retry is `retry_bounded`. Proofs
--   are in Reliability/States, Reliability/Stale and Reliability/Retry.
-- * Receipts (command_store.py, `CommandReceiptStore`). `get` and `save` with pruning and the
--   conflict test. Proofs are in Receipts/Lookup (the table) and Receipts/Laws.
-- * Executor (command_executor.py, `HubCommandExecutor`). `execute` is an action that may raise,
--   on a machine of the receipts, the world and the service calls made. Executor/World holds the
--   parameters, Executor/Validation `validate_command_envelope`. Proofs are in Executor/Effects
--   (service calls), Executor/Termination and Executor/Memory (a command that comes again).
-- * Runtime (runtime.py, `HubConnectorRuntime`). Runtime/Batch is `_contiguous_events`,
--   Runtime/State the part of the runtime's state that an upload touches, Runtime/Flush
--   `flush_once` with its two uploads, `_complete_half_open_probe` and `heartbeat`. It uses Queue,
--   Reliability and Reliability/Retry as the code does. Runtime/Intake is `enqueue_snapshot` with
--   the two methods that call it, over a parameter for the collected snapshot, and Runtime/Waiting
--   `_call_while_core_unavailable`, over the list of attempts that the world gives. Proofs are in
--   Runtime/Batch, Runtime/Attempts, Runtime/Sends, Runtime/Outcomes, Runtime/Reconciliation and
--   Runtime/Waiting.
-- * RuleStore (rule_store.py, `LocalRuleStore`). RuleStore/Table holds the two tables and `ORDER
--   BY`, RuleStore/Packages and RuleStore/Executions the methods, RuleStore/Step a call of any of
--   them as one step. Proofs are in RuleStore/Bounds (pruning), RuleStore/Keys,
--   RuleStore/Invariant and RuleStore/Reservation.
-- * Condition (rule_runtime.py, `evaluate_condition`). Condition/Documents is JSON as Python holds
--   it, Condition/Path `_resolve`, Condition/Compare `_compare`, Condition/Evaluate `_eval` and
--   `evaluate_condition`. Proofs are in Condition/Depth and Condition/Isolation.
-- * EventIdentity (event_identity.py). `build_source_event_id` on what it reads of an event.
--   Proofs are in EventIdentity/Distinct.
-- * Identity (identity.py, `ConnectorIdentityStore`). The state is a disk with the contents of the
--   two files. Identity holds `load_or_create` and `_merge_state`, Identity/Saves the three
--   `save_…` methods with the changes that they merge. Proofs are in Identity/Merging,
--   Identity/Laws (a restart), Identity/Kept (runs of saves) and Identity/Held (one save).
-- * Runtime/Bootstrap (runtime.py, `prepare`). It holds the state and the parameters of the start;
--   Runtime/Bootstrap/Sessions is `_go_live`, `_establish_session`, `_recover_session` and the
--   loop of `_call_while_core_unavailable` on that state, Runtime/Bootstrap/Prepare the three
--   paths of `prepare`, with the loop of `_prepare_provisioned`. They use Identity for the files
--   and Queue for the cursor. Proofs are in Runtime/Bootstrap/Quiet, Runtime/Bootstrap/Unenrolled
--   and Runtime/Bootstrap/Recovery. Runtime/Threads is the start of `run_forever` with
--   `_runtime_threads`; proofs are in Runtime/Threads/Opening.
-- * Client (core_client.py, `IoTCoreHubClient`). Client holds what an answer becomes, Client/Token
--   `authenticate`, `_ensure_token`, the sessions and the requests below one, with a log of what
--   was posted. Requests are one after the other there, while in runtime.py several threads share
--   the client and none waits for another between a new token and its rebind. Proofs are in
--   Client/Binding.
-- * RulePackage (rule_package.py). RulePackage/Plan is `_validate_runtime_plan`, RulePackage/Trust
--   the two `verify_…` functions, as a list of checks in the order of the code. Proofs are in
--   RulePackage/Safe, RulePackage/Reviewed and RulePackage/Accepted.
-- * RuleRuntime (rule_runtime.py, `HomeAssistantLocalRuleRuntime`). RuleRuntime holds
--   `_dispatch_actions` with `_validate_action`, RuleRuntime/Events `_execute` and
--   `process_event`. It uses RulePackage, RuleStore, Condition and EventIdentity as the code does.
--   Proofs are in RuleRuntime/Once, with RuleStore/Finalized, and RuleRuntime/Lights.
--   Runtime/Events is `enqueue_event`, which calls `process_event`, and Runtime/Rules
--   `process_rule_packages_once`; proofs on its controls are in Runtime/Rules/Controls.
--   Runtime/Evidence is `flush_rule_evidence_once`, with proofs in Runtime/Evidence/Kept.
-- * Runtime/Commands (runtime.py, `process_commands_once`). It runs Executor on the deliveries of
--   a claim and acknowledges each; proofs are in Runtime/Commands/Issued.
-- * Common holds the names and lemmas that all share: Common/Tests, Common/Lists, Common/Int and
--   Common/Text. Witnesses applies the theorems to concrete inputs.
--
-- Parameters: Ed25519, the HTTP requests, SQLite's order of texts, `json` (an encoder and a
-- decoder; the law that decoding undoes encoding is a hypothesis where it is used), SHA-256,
-- `datetime.fromisoformat`, Python's numbers and `str` of a value that is no text in the
-- conditions, the clocks, `random`, the Home Assistant client and the core client, the last two
-- over a world of any type that they read and change.
--
-- Choices. A time is a natural number of microseconds, and an ISO text of a UTC time is that
-- number, since both order alike; a difference that would lie before the epoch stops at it. A
-- `with self._connect()` block is one transaction, so that a method is one step and one that
-- raises leaves its state. Numbers of SQLite are natural numbers without an upper bound. The
-- readback loop of the executor has a bound of 26 rounds: a round sleeps 0.2 seconds and the loop
-- lasts 5 at most, and a theorem shows that the bound is never met. `retry_bounded` recurs on the
-- rounds left of its `range`. The evaluation of a condition has its depth as fuel, and a theorem
-- shows that this is enough. The loops of the start wait for the core and for the stop event, and
-- have no end of their own: they have a bound on their rounds as an argument, and the theorems on
-- them hold for every bound, with the result `no_fuel` told apart.
--
-- Not modelled: the migration of an old queue schema in `_initialize`; the contents of payloads
-- beyond the keys that are read; the JSON bodies of the requests of core_client.py, with
-- `exchange` and `activate`; the end of `run_forever` (its `finally`),
-- `_recover_after_session_error`, `local_status` and the loops of the threads in runtime.py; the
-- bootstrap snapshot between the last stop test and the threads; the exception of a `service_data`
-- that is no mapping; config.py, ha_client.py, snapshot.py and main.py, which are configuration,
-- transport and start-up. The model of the runtime takes what snapshot.py builds as a parameter.
pub mod Common
pub mod Client
pub mod Identity
pub mod RulePackage
pub mod RuleRuntime
pub mod Queue
pub mod Reliability
pub mod Receipts
pub mod Executor
pub mod Runtime
pub mod Witnesses
pub mod RuleStore
pub mod Condition
pub mod EventIdentity
