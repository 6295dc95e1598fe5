-- ===== src/Store/Tests.antt =====
-- Runs of the event store at concrete events, over a database in memory.
pub mod Memory
mod Codec
