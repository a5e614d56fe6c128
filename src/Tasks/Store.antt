-- ===== src/Tasks/Store.antt =====
-- The tables of the task queue and the statements on them, from `class SQLiteStore` of
-- agents/desktop/src/wto_desktop_agent/infrastructure/sqlite/store.py and the schema in
-- infrastructure/sqlite/versions/0001_initial.sql. A method that fails returns its error and the
-- tables as its transaction leaves them. The clock is read once for each call, and fresh UUIDs are
-- arguments: a collision of a fresh UUID with a stored one is not modelled.
pub mod Rows
pub mod Ingest
pub mod Queue
pub mod Claim
pub mod Finish
pub mod Outbox
pub mod Recover
pub mod Ops
pub mod Evolves
pub mod Evolution
pub mod Growth
pub mod Once
pub mod Restart
pub mod Delivery
