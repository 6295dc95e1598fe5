-- ===== src/Store/Tests/Memory.antt =====
-- A platform that meets the documented behaviour: a sorted list for RocksDB, and a codec that
-- knows the sample events.
use mathlib.Core.Logic.{ite, if_pos, if_neg}
use ledgerfs.Prelude.{
  ℕ, ◌≡◌, refl, sym, ap, String, true, none, [], ◌∷◌, Result, ok, err, arith, if◌then◌else◌,
}
use mathlib.Core.List.{append-nil}
use ledgerfs.Prelude.Int.{pos, pos_part}
use ledgerfs.Prelude.Bytes.{Bytes, bytes_eq}
use ledgerfs.Core.Equality.{Envelope-discrete}
use ledgerfs.Core.Types.{AccountId, DateTime, usd, customer, event_id_of}
use ledgerfs.Core.Events.{EventEnvelope, LedgerEvent, default_metadata, account_created}
use ledgerfs.Store.Table.{
  Table, IsSorted, lookup, insert, insert_all, insert-IsSorted, insert_all-IsSorted,
}
use ledgerfs.Store.Keys.{documented_chrono}
use ledgerfs.Store.Codec.{Codec, IsCodec}
use ledgerfs.Store.Config.{default_config}
use ledgerfs.Store.Rocks.{RocksDb, IsRocksDb, in_mode}
use ledgerfs.Store.Platform.{Platform, IsPlatform}
use ledgerfs.Store.EventStore.{EventStore}

abbrev pub account : AccountId
account = record { uuid = record { bytes = 7 ∷ [] } }

abbrev created : LedgerEvent
created = account_created (record {
  account_id = account;
  account_type = customer;
  currency = usd;
  initial_balance = record { value = pos 1000 };
  metadata = record { account_type = customer; currency = usd; tags = []; regulatory_flags = [] };
  created_at = pos 5;
})

-- The n-th sample: created at the time `t`.
abbrev pub sample : ℕ → DateTime → EventEnvelope
sample n t = record {
  event_id = event_id_of (n ∷ []);
  event_type = "AccountCreated";
  aggregate_id = "7";
  aggregate_version = 1;
  timestamp = t;
  event_data = created;
  metadata = default_metadata;
}

abbrev pub first : EventEnvelope
first = sample 1 (pos 300)

abbrev pub second : EventEnvelope
second = sample 2 (pos 700)

-- Differs from `first` in its version alone, and so has its key.
abbrev pub twin : EventEnvelope
twin = record first { aggregate_version = 2 }

pub write_sample : EventEnvelope → Result String Bytes
write_sample e = ite (Envelope-discrete e first) (ok (1 ∷ [])) (
    ite (Envelope-discrete e second) (ok (2 ∷ []))
      (ite (Envelope-discrete e twin) (ok (3 ∷ [])) (err "unknown")))

pub read_sample : Bytes → Result String EventEnvelope
read_sample b =
    if bytes_eq b (1 ∷ [])
    then ok first
    else if bytes_eq b (2 ∷ [])
    then ok second
    else if bytes_eq b (3 ∷ [])
    then ok twin
    else err "unknown"

abbrev samples : Codec
samples = record {
  bincode_serialize = write_sample;
  bincode_deserialize = read_sample;
  lz4_compress = λ b. ok b;
  lz4_decompress = λ b. ok b;
}

read-write_sample : (e : EventEnvelope) (b : Bytes) → write_sample e ≡ ok b → read_sample b ≡ ok e
unfolding write_sample read_sample bytes_eq
read-write_sample e b h = ground arith

samples-IsCodec : IsCodec samples
samples-IsCodec = record {
  bincode_inverse = read-write_sample;
  lz4_inverse = λ d b h. ground arith;
}

abbrev pub Memory : Type 0
Memory = (t : Table) × IsSorted t

abbrev memory_rocks : RocksDb Memory String
memory_rocks = record {
  get = λ d k. ok (lookup k d.0);
  put_opt = λ d k v w. (ok tt, (insert k v d.0, insert-IsSorted k v d.0 d.1));
  write_opt = λ d batch w. (ok tt, (insert_all batch d.0, insert_all-IsSorted batch d.0 d.1));
  iterator = λ d m. record { entries = in_mode m d.0; fault = none };
  compact_range = λ d. d;
}

abbrev pub held : Memory → Table
held d = d.0

memory-IsRocksDb : IsRocksDb memory_rocks held
memory-IsRocksDb = record {
  sorted = λ d. d.1;
  get_exact = λ d k o h. ground arith;
  put_ok = λ d k v w h. refl;
  put_err = λ d k v w e h. cc;
  write_ok = λ d batch w h. refl;
  write_err = λ d batch w e h. cc;
  iterator_prefix = λ d m. ([], sym (append-nil _));
  iterator_all = λ d m h. refl;
  compact_keeps = λ d. refl;
}

abbrev pub memory : Platform Memory String
memory = record {
  rocks = memory_rocks;
  codec = samples;
  chrono = documented_chrono;
  debug_lossy = λ b. b;
  error_text = λ e. [];
}

pub memory-IsPlatform : IsPlatform memory held
memory-IsPlatform = record {
  is_rocks = memory-IsRocksDb;
  is_codec = samples-IsCodec;
  is_chrono = λ t. refl;
}

abbrev pub empty_store : EventStore Memory
empty_store = record {
  db = ([], tt);
  serializer = record { use_compression = true };
  config = default_config;
}

pub first_written : write_sample first ≡ ok (1 ∷ [])
unfolding write_sample
first_written = rw (if_pos (Envelope-discrete first first) refl) refl

second_ne_first : ¬ (second ≡ first)
second_ne_first e = absurd (omega (arith, ap (λ (x : EventEnvelope). pos_part x.timestamp) e))

pub second_written : write_sample second ≡ ok (2 ∷ [])
unfolding write_sample
second_written =
    rw (if_neg (Envelope-discrete second first) second_ne_first)
      (rw (if_pos (Envelope-discrete second second) refl) refl)

twin_ne_first : ¬ (twin ≡ first)
twin_ne_first e = absurd (omega (arith, ap (λ (x : EventEnvelope). x.aggregate_version) e))

twin_ne_second : ¬ (twin ≡ second)
twin_ne_second e = absurd (omega (arith, ap (λ (x : EventEnvelope). x.aggregate_version) e))

pub twin_written : write_sample twin ≡ ok (3 ∷ [])
unfolding write_sample
twin_written = rw (if_neg (Envelope-discrete twin first) twin_ne_first) (
    rw (if_neg (Envelope-discrete twin second) twin_ne_second)
      (rw (if_pos (Envelope-discrete twin twin) refl) refl))

pub first_read : read_sample (1 ∷ []) ≡ ok first
unfolding read_sample bytes_eq
first_read = refl
