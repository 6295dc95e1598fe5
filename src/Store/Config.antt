-- ===== src/Store/Config.antt =====
-- crates/ledgerfs-event-store/src/config.rs. The path is kept as text.
use ledgerfs.Prelude.{ℕ, ◌*◌, String, Bool, true, false}
use ledgerfs.Prelude.Int.{ℤ, pos}

pub data CompressionType : Type 0 where
  none snappy zlib bz2 lz4 lz4hc zstd : CompressionType

pub record EventStoreConfig : Type 0 where
  pub db_path : String
  pub batch_size : ℕ
  pub enable_compression : Bool
  pub compression_type : CompressionType
  pub max_background_jobs : ℤ
  pub write_buffer_size : ℕ
  pub max_write_buffer_number : ℤ
  pub target_file_size_base : ℕ
  pub enable_wal : Bool
  pub sync_writes : Bool

-- `EventStoreConfig::default`.
abbrev pub default_config : EventStoreConfig
default_config = record {
  db_path = "./data/eventstore";
  batch_size = 1000;
  enable_compression = true;
  compression_type = lz4;
  max_background_jobs = pos 4;
  write_buffer_size = 64 * 1024 * 1024;
  max_write_buffer_number = pos 3;
  target_file_size_base = 64 * 1024 * 1024;
  enable_wal = true;
  sync_writes = false;
}

abbrev pub new_config : String → EventStoreConfig
new_config db_path = record default_config { db_path = db_path }

abbrev pub high_throughput : EventStoreConfig → EventStoreConfig
high_throughput self = record self {
  batch_size = 5000;
  write_buffer_size = 128 * 1024 * 1024;
  max_write_buffer_number = pos 6;
  sync_writes = false;
  max_background_jobs = pos 8;
}

abbrev pub high_durability : EventStoreConfig → EventStoreConfig
high_durability self = record self { sync_writes = true; enable_wal = true; batch_size = 100 }

abbrev pub development : EventStoreConfig → EventStoreConfig
development self = record self {
  db_path = "./tmp/eventstore-dev";
  sync_writes = false;
  enable_compression = false;
}
