-- ===== src/Lib.antt =====
-- Open Chronicle keeps a journal of what a person does at a computer, aggregates it into chunks of
-- five minutes, and discloses it to clients under grants. This library models the parts of its Rust
-- crates that decide what is disclosed and what counts as evidence.
--
-- The parts and their files:
--   Base        shared names, tests on numbers, lists, results with an error, calls that change
--               a state (Action), sorting.
--   Domain      crates/chronicle-domain/src: Time and Grant (config.rs), Version (lib.rs), Ids
--               (ids.rs), Event, Event/Attempt and Event/Validate (event.rs), Chunk (chunk.rs),
--               Query (query.rs).
--   Store       crates/chronicle-store/src: Errors (lib.rs), World (generation.rs, layout.rs),
--               Storage (storage.rs), Receipts (receipts.rs) and Journal (journal.rs: the lines
--               of a shard and their scan; Lines, Scan and Corrupt are proofs).
--   Store/Receipts
--               Document is the file and its validation, Ledger the calls of `GrantReceiptStore`,
--               Session those of `GrantQuerySession`, Commit the write of a session. The other
--               modules hold the proofs: Lookup, Calls, Lifecycle, History and Staging carry the
--               lemmas, Trace the histories of calls, and Soundness, Revocation, Budget, Cursors,
--               Writes, Install and Health what they are for.
--   Engine      crates/chronicle-engine/src: Policy (policy.rs), Cadence (`CadenceGuard` of
--               ingest.rs), Coverage (coverage.rs), Transitions (duration.rs), Errors (`EngineError`
--               of ingest.rs).
--   Engine/Config
--               config.json, which the study and the runtime share: what is read and written of it.
--   Engine/Study
--               `StudyController` (study.rs), with `health_summary` in Summary (and its check, of
--               crates/chronicle-domain/src/health.rs). Window, Latch and Extension are proofs.
--   Engine/Runtime
--               `RuntimeController` (runtime.rs): its settings and reads, Validate (the checks),
--               Startup, Gap, Heartbeat and Termination. Document, Modest, Frame, Chain, Restart,
--               Retry, Beat, Correction, Awaited and Progress are proofs.
--   Engine/Recorder
--               `capture_admission` and `require_live_event` of `RecordingCoordinator` (study.rs).
--               Admission and Live are proofs.
--
-- How they meet: a query is decided by `authorize_query` under its grant (Engine/Policy), begins as
-- a session on the receipts (Store/Receipts), stages what it discloses and commits. Events pass
-- `validate` (Domain/Event/Validate) before they are stored; `assign_coverage` reads the events of
-- a bucket (Engine/Coverage). Whether there is capture at all is asked of the runtime and the study,
-- which read and write the same config.json, and of the storage (Engine/Recorder); what the clock or
-- a restart leaves out is a gap event that the runtime prepares and commits (Engine/Runtime).
--
-- How state is modelled. A call on the receipts is a function from the two files it reads to a
-- result and the files it leaves, the error paths included. The outcomes of locks, reads, renames
-- and directory syncs are fields of a `Platform`, which every theorem leaves open where it does not
-- say otherwise. A history is a list of such calls; the locks make each call one step, and a session
-- one step from `begin_query` to `commit`. The cadence guard is a record that each call returns
-- anew. A call of the study or the runtime is likewise one action on config.json, which it holds
-- locked: the file, absent, no object, or a document with one entry for each key that the calls
-- read, each of which may be absent or refused by serde. Keys that no call reads, which the source
-- carries along, are left out. The only errors of the model that Rust does not return are `aborted`, for a fault that
-- stops the process, and `panicked`.
--
-- Numbers. All are natural numbers; where 64-bit sums are checked the bound is written out, counters
-- saturate at 2^32 - 1, and an instant is a number of nanoseconds from chrono's earliest day, so that
-- remainders modulo 300 seconds agree with those of the epoch. The millisecond arithmetic of a
-- bucket is signed in Rust; where a difference can be negative both cases are written out, and a
-- span's start that would lie below zero is raised to the bucket's. Additions of an hour or of five
-- minutes to an instant at the end of chrono's calendar are not modelled. Every loop is structural
-- recursion on a list or on the number of seconds left, so no fuel is used.
--
-- Parameters. The digest of a query's scope (the JSON and hash libraries) and the last second that
-- chrono represents are arguments of the policy; the fresh part of a cursor's token is an argument
-- of `stage_cursor`. The JSON and hash libraries of the journal, and the parse of a body, are
-- a `JournalLibrary`. The identifier of a gap, which contains a digest, and the derived equality of
-- events are given by a `GapLibrary`; the outcome of the storage's health is an argument of
-- `capture_admission`. Identifiers are numbers, but the name of a session is checked as text. A
-- confidence, a 32-bit float, is only the result of
-- its test against zero and one.
--
-- Not modelled: parsing of JSON, SQLite and its queries, locks, permissions and directories, the
-- journal's appends, index and repairs, recovery, retention, artifacts, export, the rest of
-- `RecordingCoordinator`, which needs the journal and the artifacts, the service, the MCP server,
-- the C interface, and the application for macOS.
pub mod Base
pub mod Domain
pub mod Store
pub mod Engine
