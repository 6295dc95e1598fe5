-- ===== src/Store/Platform.antt =====
-- The crates that the store stands on, together, and what they document.
use ledgerfs.Prelude.Bytes.{Bytes}
use ledgerfs.Store.Table.{Table}
use ledgerfs.Store.Keys.{Chrono, IsChrono}
use ledgerfs.Store.Codec.{Codec, IsCodec}
use ledgerfs.Store.Rocks.{RocksDb, IsRocksDb}

-- `debug_lossy` is the `{:?}` of `String::from_utf8_lossy`, and `error_text` the text of a
-- database error.
pub record Platform (Db Error : Type 0) : Type 0 where
  pub rocks : RocksDb Db Error
  pub codec : Codec
  pub chrono : Chrono
  pub debug_lossy : Bytes → Bytes
  pub error_text : Error → Bytes

pub record IsPlatform {Db Error : Type 0} (p : Platform Db Error) (contents : Db → Table)
    : Type 0 where
  pub is_rocks : IsRocksDb p.rocks contents
  pub is_codec : IsCodec p.codec
  pub is_chrono : IsChrono p.chrono
