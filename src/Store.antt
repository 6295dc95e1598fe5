-- ===== src/Store.antt =====
-- crates/ledgerfs-event-store: the append-only store of event envelopes over RocksDB.
pub mod Table
pub mod Keys
pub mod Codec
pub mod Config
pub mod Rocks
pub mod Platform
pub mod EventStore
pub mod Append
pub mod Query
pub mod Recovery
pub mod Batch
pub mod Processor
pub mod Ledger
pub mod Open
pub mod Suite
mod Tests
