-- ===== src/Store.antt =====
-- The tables that the services share, and the transactions that run on them.
pub mod Rows
pub mod Tx
pub mod Post
