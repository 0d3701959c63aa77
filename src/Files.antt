-- ===== src/Files.antt =====
-- backend/crates/db/src/files: the transitions of a file, its write lease, its parts and its upload.
pub mod Commit
pub mod Sweep
pub mod Create
pub mod Completion
pub mod Multipart
pub mod Recovery
pub mod Access
pub mod Prune
pub mod Candidates
