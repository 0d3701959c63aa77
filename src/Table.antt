-- ===== src/Table.antt =====
-- A table as the list of its rows, with the statements that the SQL of db/src is made of.
mod Rows
mod Laws
pub mod Keyed
pub mod Order
pub mod Scan
unfoldable pub use Rows.*
pub use Laws.*
