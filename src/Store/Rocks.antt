-- ===== src/Store/Rocks.antt =====
-- What the store uses of the `rocksdb` crate, and what RocksDB documents of it.
use ledgerfs.Prelude.{◌≡◌, Bool, Option, none, List, ◌++◌, reverse, Result, ok, err}
use ledgerfs.Prelude.Bytes.{Bytes}
use ledgerfs.Store.Table.{Entry, Table, lookup, insert, insert_all, from_key, IsSorted}

-- `IteratorMode`, with the forward direction that the store asks for.
pub data IteratorMode : Type 0 where
  start end : IteratorMode
  from_forward : Bytes → IteratorMode

pub record WriteOptions : Type 0 where
  pub sync : Bool
  pub disable_wal : Bool

-- An iterator yields pairs and ends, or ends in an error.
pub record Scan (Error : Type 0) : Type 0 where
  pub entries : List Entry
  pub fault : Option Error

-- A handle is passed on by the operations that write.
pub record RocksDb (Db Error : Type 0) : Type 0 where
  pub get : Db → Bytes → Result Error (Option Bytes)
  pub put_opt : Db → Bytes → Bytes → WriteOptions → Result Error (Unit {0}) × Db
  pub write_opt : Db → List Entry → WriteOptions → Result Error (Unit {0}) × Db
  pub iterator : Db → IteratorMode → Scan Error
  pub compact_range : Db → Db

-- The pairs of an iterator in its order.
abbrev pub in_mode : IteratorMode → Table → List Entry
in_mode start t = t
in_mode end t = reverse t
in_mode (from_forward k) t = from_key k t

-- The documented behaviour, over what the database holds: reads that succeed are exact, writes
-- happen wholly or fail and leave the contents, an iterator yields a prefix of the pairs in its
-- order, all of them if it meets no error, and compaction changes no contents.
pub record IsRocksDb {Db Error : Type 0} (rocks : RocksDb Db Error) (contents : Db → Table)
    : Type 0 where
  pub sorted : (d : Db) → IsSorted (contents d)
  pub get_exact :
      (d : Db) (k : Bytes) (o : Option Bytes) → rocks.get d k ≡ ok o → lookup k (contents d) ≡ o
  pub put_ok :
      (d : Db) (k v : Bytes) (w : WriteOptions)
      → (rocks.put_opt d k v w).0 ≡ ok tt
      → contents (rocks.put_opt d k v w).1 ≡ insert k v (contents d)
  pub put_err :
      (d : Db) (k v : Bytes) (w : WriteOptions) (e : Error)
      → (rocks.put_opt d k v w).0 ≡ err e
      → contents (rocks.put_opt d k v w).1 ≡ contents d
  pub write_ok :
      (d : Db) (batch : List Entry) (w : WriteOptions)
      → (rocks.write_opt d batch w).0 ≡ ok tt
      → contents (rocks.write_opt d batch w).1 ≡ insert_all batch (contents d)
  pub write_err :
      (d : Db) (batch : List Entry) (w : WriteOptions) (e : Error)
      → (rocks.write_opt d batch w).0 ≡ err e
      → contents (rocks.write_opt d batch w).1 ≡ contents d
  pub iterator_prefix :
      (d : Db) (m : IteratorMode)
      → (rest : List Entry) × (in_mode m (contents d) ≡ (rocks.iterator d m).entries ++ rest)
  pub iterator_all :
      (d : Db) (m : IteratorMode)
      → (rocks.iterator d m).fault ≡ none
      → (rocks.iterator d m).entries ≡ in_mode m (contents d)
  pub compact_keeps : (d : Db) → contents (rocks.compact_range d) ≡ contents d
