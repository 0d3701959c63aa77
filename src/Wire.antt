-- ===== src/Wire.antt =====
-- backend/crates/s3-protocol: the text of S3 requests, before any object is touched.
pub mod Split
pub mod Decimal
pub mod Query
pub mod Operation
pub mod Credential
pub mod Digest
pub mod Canonical
pub mod Routing
pub mod Scope
pub mod Names
