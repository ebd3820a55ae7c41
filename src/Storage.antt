-- ===== src/Storage.antt =====
-- The Postgres database behind the services: its rows, the statements of the source as functions on
-- the tables, and the pool and transactions through which a handler runs them.
pub mod Rows
pub mod Statements
pub mod Counts
pub mod Pool
pub mod Transactions
pub mod Conversations
