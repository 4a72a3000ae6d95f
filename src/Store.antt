-- ===== src/Store.antt =====
-- src/store/mod.rs: the state database. SQLite itself is not part of the repository; a table is the list of
-- its rows, and each SQL statement of the source is a function on the tables.
pub mod Types
pub mod Errors
pub mod Tables
pub mod Connection
pub mod Rows
pub mod Ledger
pub mod Audit
pub mod Rules
pub mod FailClosed
pub mod Migrate
