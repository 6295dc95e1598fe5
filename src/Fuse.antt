-- ===== src/Fuse.antt =====
-- crates/ledgerfs-fuse: the read-only file system over the ledger.
pub mod Paths
pub mod Inodes
pub mod Attributes
pub mod Filesystem
pub mod Program
pub mod Mount
