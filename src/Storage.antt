-- ===== src/Storage.antt =====
-- The store (threadlens/storage/repositories.py): a table of current states for each type of
-- object, the table of events with its queries, the aggregates and the metadata.
pub mod Table
pub mod Events
pub mod Aggregates
