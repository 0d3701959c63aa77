-- ===== src/Management.antt =====
-- backend/crates/management-policy: who may do what in the management of an installation.
pub mod Policy
