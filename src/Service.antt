-- ===== src/Service.antt =====
-- backend/crates/object-service: how a commit and a cleanup are put together from the operations
-- of storage and database. An operation is a function of the state of the world.
pub mod Commit
pub mod Schedule
pub mod Multipart
