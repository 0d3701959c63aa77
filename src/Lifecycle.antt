-- ===== src/Lifecycle.antt =====
-- What the operations on files keep.
pub mod Invariant
pub mod Rules
pub mod Views
pub mod Commit
pub mod Leases
pub mod Finish
pub mod Finalize
pub mod Prune
pub mod Progress
pub mod Updates
pub mod KeyUpdates
pub mod Untouched
pub mod Moves
pub mod Operations
pub mod Reachable
pub mod Keys
pub mod Sessions
pub mod Create
pub mod Completion
pub mod Sweep
pub mod Races
pub mod Allowed
pub mod Departures
pub mod Deletion
pub mod PartClaims
pub mod Forward
pub mod Scans
pub mod Coverage
