-- ===== src/Store/Open.antt =====
-- `EventStore::new` of crates/ledgerfs-event-store/src/store.rs. Opening a database is a parameter;
-- the conversion of the compression type keeps its name.
pub mod Laws
mod Tests
use ledgerfs.Prelude.{ℕ, String, Bool, true, false, Result, ok, err}
use ledgerfs.Prelude.Int.{ℤ}
use ledgerfs.Store.Codec.{EventSerializer}
use ledgerfs.Store.Config.{EventStoreConfig, CompressionType}
use ledgerfs.Store.EventStore.{EventStoreError, database_error, EventStore}

-- What is set of `rocksdb::Options`, with the bits of the bloom filter.
pub record Options : Type 0 where
  pub create_if_missing : Bool
  pub create_missing_column_families : Bool
  pub max_write_buffer_number : ℤ
  pub write_buffer_size : ℕ
  pub target_file_size_base : ℕ
  pub max_background_jobs : ℤ
  pub compression_type : CompressionType
  pub use_fsync : Bool
  pub bloom_filter_bits : ℕ
  pub block_based_bloom_filter : Bool

abbrev pub options_of : EventStoreConfig → Options
options_of config = record {
  create_if_missing = true;
  create_missing_column_families = true;
  max_write_buffer_number = config.max_write_buffer_number;
  write_buffer_size = config.write_buffer_size;
  target_file_size_base = config.target_file_size_base;
  max_background_jobs = config.max_background_jobs;
  compression_type = config.compression_type;
  use_fsync = config.sync_writes;
  bloom_filter_bits = 10;
  block_based_bloom_filter = false;
}

-- `EventSerializer::new`.
abbrev pub new_serializer : Bool → EventSerializer
new_serializer use_compression = record { use_compression = use_compression }

abbrev opened :
    {Db Error : Type 0}
    → EventStoreConfig
    → Result Error Db
    → Result (EventStoreError Error) (EventStore Db)
opened config (err e) = err (database_error e)
opened config (ok db) =
    ok (record { db = db; serializer = new_serializer config.enable_compression; config = config })

pub new_store :
    {Db Error : Type 0}
    → (Options → String → Result Error Db)
    → String
    → EventStoreConfig
    → Result (EventStoreError Error) (EventStore Db)
new_store open_db path config = opened config (open_db (options_of config) path)
