-- ===== src/Registry.antt =====
-- backend/crates/db/src/s3_registry: logical keys, and the sessions of S3 uploads.
pub mod Keys
pub mod Sessions
pub mod Parts
pub mod Finish
pub mod Mapping
pub mod Candidates
