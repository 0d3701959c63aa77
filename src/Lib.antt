-- ===== src/Lib.antt =====
-- grove-storage keeps the metadata of objects in PostgreSQL and their bytes in a storage. A native
-- API and an S3 API create files, upload them whole or in parts, commit, replace and delete them; a
-- reconciler finishes or reclaims what requests leave behind. The database crate is where requests
-- and reconciler meet: each of its functions is one transaction on the same tables.
--
-- The parts and the files that model them (paths below backend/crates):
--   * Db: the tables of db/migrations as lists of records (Schema), the WHERE clauses that
--     statements share (Where), a transaction as a function from a database to a step that goes on,
--     stops or fails (Tx), and the view of one file (View). Table has UPDATE, DELETE and SELECT on a
--     list of rows, with their laws.
--   * Files: db/src/files and db/src/upload_recovery.rs, one function of the same name per function
--     (create, finalize_commit, mark_deleted, finalize_reclaim, claim_relay_part, ...). The part of a
--     function between begin and commit is a name in _tx; run_tx runs it, and a function that
--     returns before its commit leaves the database as it was.
--   * Registry: db/src/s3_registry, the S3 upload sessions (Sessions, Parts, Finish) and the keys
--     (Keys, and what they do to the mapping in Mapping).
--   * Lifecycle: the invariant of a file's rows, that every operation keeps it, the operations in any
--     order (Operations, Reachable), the competition of the transitions out of pending (Races,
--     Allowed, Departures, Deletion, PartClaims), the course of a file (Progress, Moves, Forward),
--     and what the scans find (Scans, Coverage).
--   * Policy: object-policy (Validation, Multipart, and the geometry of parts in Geometry), and
--     s3-protocol/src/completion.rs (Reconcile).
--   * Service: object-service (Commit, Multipart) and api/src/reconciler/schedule.rs (Schedule).
--   * Wire: s3-protocol/src, the text of requests: operation.rs (Operation, Query, Routing), signing.rs
--     (Query, Canonical), auth.rs (Credential, Scope, Names) and integrity.rs (Digest), on Split and Decimal.
--   * Auth: api/src/s3/auth.rs, the signature of S3 requests: what it is checked with (Material), the
--     check (Authenticate), and what is accepted (Accepted, Header). What the http, chrono,
--     percent-encoding, hmac and sha2 crates do is a `Library`; a credential with its decrypted secret
--     is looked up by a parameter. The clock counts nanoseconds of one era.
--   * Reconciler: api/src/reconciler.rs and its children. World has what a job works on and among,
--     Steps, Observe, Complete and Jobs the jobs; their scans are Files.Candidates and
--     Registry.Candidates. Down, Sweeps, Trail and Removed prove what a job that fails at once does, and what
--     a job asks the storage to remove; Verified, what is confirmed.
--   * Management: management-policy (Policy).
--   * Examples, RuleExamples, WireExamples, RunExamples and AuthExamples: runs and the theorems at
--     concrete inputs.
--
-- Choices of the model: a uuid and a time in seconds are numbers, and `Clock` gives a transaction its
-- transaction time and its wall clock. Sizes and part numbers are numbers, since the schema and the
-- callers refuse negative ones; where code tests a sign (classify_upload, reconcile) they are
-- integers. Identifiers drawn by the database are arguments, and an insert of a known one fails with
-- a unique violation. The text of a uuid and of a month is a parameter (Render). A row lock that is
-- skipped, and the rows that a LIMIT picks, are arguments too. Each operation runs as a whole: sequences
-- of operations stand for concurrency. Most functions lock the row of their file first, which makes
-- them so. PostgreSQL evaluates the NOT EXISTS of finalize_commit, finalize_reclaim and reclaim_pending
-- in the snapshot of the statement, so an upload that another transaction claims in between may be
-- unseen there; mark_deleted reads the reason of a refusal in a second statement, so that another
-- operation may come between. These interleavings are not modelled. Of the foreign keys, those of
-- the logical keys and of a read lease are tested; the others hold by the statements before.
-- All recursion is structural, so there is no fuel.
--
-- A job of the reconciler makes its calls one after the other; before each call any operations of
-- requests may run, and each call may fail (`Env`). A call that fails is one whose transaction did not
-- commit. The storage and the registry of storages are functions of `Env` on a state of their own.
--
-- Not modelled: a connection that fails after its commit, the timer, lock and local spool around the
-- jobs, the management services and commands, HTTP routing and the other handlers, HMAC, SHA-256 and XML, the
-- storage provider, the command line and the web console: the calls of other libraries or the glue
-- around the operations above.
pub mod Prelude
pub mod Table
pub mod Db
pub mod Files
pub mod Registry
pub mod Lifecycle
pub mod Wire
pub mod Auth
pub mod Policy
pub mod Service
pub mod Management
pub mod Reconciler
mod Examples
mod RuleExamples
mod WireExamples
mod RunExamples
mod AuthExamples
