-- ===== src/Db.antt =====
-- The database that backend/crates/db works on: its tables, WHERE clauses and transactions.
pub mod Schema
pub mod Where
pub mod Tx
pub mod View
