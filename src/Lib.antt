-- ===== src/Lib.antt =====
-- The sync engine of onesync, which keeps local folders and OneDrive in step.
--
-- Parts and files. crates/onesync-protocol gives the data: Protocol/Enums, Path, FileSide,
-- Remote, Account and Entities follow enums.rs, path.rs, file_side.rs, remote.rs, account.rs with
-- config.rs, and the files of the rows, with the field and variant names of the source, and Hash
-- and Id the printers and parsers of ContentHash (primitives.rs) and Id (id.rs).
-- crates/onesync-core/src is the engine: Engine/Types, Reconcile, Planner, Retry, Conflict,
-- CaseCollision, Executor and Observability follow the files of the same names under engine/,
-- Engine/Limits follows limits.rs, and Engine/Ports the traits under ports/. Engine/Cycle is
-- engine/cycle.rs: Sides has its pure helpers, Delta phase_delta_reconcile with Buckets
-- (detect_remote_case_collisions) and Collisions (the other treatment of names that differ in
-- case only), LocalScan phase_local_uploads and apply_initial_sync_collisions, Resolve
-- phase_resolve_conflicts and build_remote_rename_ops, Execute phase_execute, and Run run_cycle,
-- which calls the phases in the order of the source: delta, cursor, local scan, conflicts, plan,
-- execution, record. State/Memory is InMemoryStore of crates/onesync-state/src/fakes.rs: its
-- writes, with Reads for the queries, View for what it promises, and Port for its place behind
-- the engine. State/Sql is SqliteStore as far as it is modelled: FileOps, Conflicts and Accounts
-- follow the modules of these names under queries/, Tables the rows and keys of the migrations
-- and sync_runs.rs (record), Faithful what the columns rely on, Selects the statements on lists
-- of rows, and Engine the store behind the engine. Graph is crates/onesync-graph/src: Errors
-- (error.rs), Http (the client as a parameter, and check_status of client.rs), Upload
-- (upload/session.rs), Throttle (throttle.rs), Urls (urls.rs), Download (download.rs) and IdToken
-- (auth/id_token.rs). FsLocal/Paths is absolutise of crates/onesync-fs-local/src/path.rs, and
-- FsLocal/Scan its scan.rs. Keychain is the vault of crates/onesync-keychain/src/fakes.rs. Daemon
-- is crates/onesync-daemon/src: Scheduler and PostCycle (scheduler.rs, around the engine's
-- run_cycle), Tokens (its token source), Services and Pairs (methods/pair.rs and
-- methods/conflict.rs, with Pairs/Memory over the store in memory), Accounts (methods/account.rs
-- and login_registry.rs, with Vault for the services over the vault), Config (methods/config.rs),
-- Webhook (webhook_receiver.rs), Framing (ipc/framing.rs) and Subscriptions
-- (ipc/subscriptions.rs). Child modules named for a property hold its proof. Tests runs the
-- theorems on surroundings kept in memory. Prelude holds what all share: equality tests, lists,
-- maps, sorting, text, and the outcome of fallible code over a state.
--
-- State and errors. An asynchronous function is an action: it takes the state of the store
-- together with the state of the other surroundings (clock, identifiers, audit log, disk, drive)
-- and returns a value or an error with the states after it, so that what was done before an error
-- stays done. The record Ports holds the calls, which are arbitrary functions: no theorem assumes
-- more of them than its hypotheses say. An error value stands for the message that the source
-- formats from it.
--
-- Representation. Text is the list of its UTF-8 bytes. Identifiers are numbers, timestamps are
-- nanoseconds from the earliest instant, and a HashMap is a list in the order of insertion, where
-- the source leaves the order open. The count of a run's operations wraps at 32 bits as the
-- source's cast does; the other counters stay far below 64 bits and are not wrapped. Unicode
-- normalisation and lower case, the BLAKE3 prefix, the printed time, the ULID, the texts of
-- errors, and of floats the order and the product of a jitter with a ceiling are parameters.
--
-- Bounds. Six loops are not structural. The retry loop of the execute phase runs on fuel of six
-- rounds, one more than the attempts allowed, and its third way out stands for fuel that ran out.
-- The loop of an upload runs on fuel of six passes over the chunks, one for each resumption
-- allowed and the first, each of one round more than there are chunks; `none` stands for fuel
-- that ran out. The refresh of an access token runs on fuel of three, the attempts allowed. The
-- scan of a disk takes one unit of fuel for each directory that it reads, and says so where the
-- fuel runs out. The loop of a download over full blocks has a round for each byte of the buffer,
-- and the trimming of a prefix one for each byte of the text. The token bucket is a list of
-- events in any order, each one access of a shared cell.
--
-- Where a fact about the surroundings is to be kept by a run, it is a parameter: the theorem says
-- of every such fact that the run keeps it if the calls that are right keep it.
--
-- Not modelled: of the SQL store the queries on pairs, entries, audit events and config, the rest
-- of the schema's cascades, and retention; of the HTTP adapter the pages of changes and single
-- requests but the download; the writes of the file system adapter; dispatch of the daemon, its
-- run, state and audit methods; the exchange and the listener of the sign-in, the key chain of
-- the operating system and the command line, which are I/O or are left for later; and the
-- interleaving of a cycle with the methods, except for the row that a cycle overwrites: the
-- scheduler runs the pairs one after another. Log lines are left out.
pub mod Prelude
pub mod Protocol
pub mod Engine
pub mod State
pub mod Graph
pub mod FsLocal
pub mod Keychain
pub mod Daemon
pub mod Tests
