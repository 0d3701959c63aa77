-- ===== src/Auth.antt =====
-- backend/crates/api/src/s3/auth.rs: who signed an S3 request.
pub mod Text
pub mod Material
pub mod Authenticate
pub mod Accepted
pub mod Header
