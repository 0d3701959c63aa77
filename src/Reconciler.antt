-- ===== src/Reconciler.antt =====
-- backend/crates/api/src/reconciler.rs and its children: the jobs that finish, reopen or clean what
-- requests left behind, over the database and the storage, while requests go on.
pub mod World
pub mod Steps
pub mod Observe
pub mod Complete
pub mod Jobs
pub mod Down
pub mod Sweeps
pub mod Trail
pub mod Removed
pub mod Verified
