-- ===== src/Policy.antt =====
-- backend/crates/object-policy, and the completion rules of backend/crates/s3-protocol.
pub mod Validation
pub mod Multipart
pub mod Geometry
pub mod Reconcile
