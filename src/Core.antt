-- ===== src/Core.antt =====
-- crates/ledgerfs-core: the ledger's data model, without behaviour beyond the amounts and the
-- constructors of envelopes.
pub mod Types
pub mod Errors
pub mod Amount
pub mod Events
pub mod Equality
pub mod Commands
pub mod Traits
