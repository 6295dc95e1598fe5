-- ===== src/Store/Processor.antt =====
-- `BatchProcessor` of crates/ledgerfs-event-store/src/batch.rs. `flush_batch` holds the store's lock
-- while it appends and the lock of the metrics while it counts; between the two, other processors
-- run. So a flush is two steps here, and a processor's place between steps is its state.
pub mod Failure
pub mod Channel
pub mod Metrics
pub mod Worker
pub mod System
pub mod Tally
pub mod Replay
pub mod Moves
pub mod Accounts
pub mod Drain
pub mod Progress
pub mod Settled
pub mod Served
pub mod Schedules
pub mod Violation
pub mod Batches
pub mod Signals
mod Tests
