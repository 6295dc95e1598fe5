-- ===== src/Store/EventStore.antt =====
-- `EventStore` of crates/ledgerfs-event-store/src/store.rs. An operation runs under the store's
-- lock, so that it is one step from a store to the next.
use ledgerfs.Prelude.{
  ℕ, Bool, true, false, not, ◌||◌, Option, none, some, List, [], ◌∷◌, ◌++◌, Result, ok, err, ◌>>=◌,
  map_err, String, if◌then◌else◌,
}
use text.Mathlib.Text.{◌==◌ as str_eq}
use ledgerfs.Prelude.Bytes.{Bytes, codes}
use ledgerfs.Core.Types.{AccountId, DateTime, before, account_id_eq}
use ledgerfs.Core.Events.{
  EventEnvelope, account_created, account_status_changed, account_metadata_updated,
  transaction_processed, balance_updated,
}
use ledgerfs.Store.Keys.{generate_event_key}
use ledgerfs.Store.Codec.{SerializationError, EventSerializer, serialize, deserialize}
use ledgerfs.Store.Config.{EventStoreConfig}
use ledgerfs.Store.Rocks.{WriteOptions}
use ledgerfs.Store.Platform.{Platform}

pub data EventStoreError (Error : Type 0) : Type 0 where
  database_error : Error → EventStoreError Error
  serialization_error : SerializationError → EventStoreError Error
  event_not_found invalid_query : String → EventStoreError Error
  concurrency_error : Bytes → EventStoreError Error

pub record EventQuery : Type 0 where
  pub account_id : Option AccountId
  pub start_time : Option DateTime
  pub end_time : Option DateTime
  pub limit : Option ℕ
  pub offset : Option ℕ
  pub event_types : Option (List String)

pub record EventQueryResult : Type 0 where
  pub events : List EventEnvelope
  pub total_count : Option ℕ
  pub has_more : Bool

-- The duration is in nanoseconds.
pub record AppendResult : Type 0 where
  pub events_written : ℕ
  pub bytes_written : ℕ
  pub write_duration : ℕ

pub record EventStoreStatistics : Type 0 where
  pub total_events : ℕ
  pub oldest_event : Option DateTime
  pub newest_event : Option DateTime
  pub database_size_bytes : ℕ

-- The handle, without the lock.
pub record EventStore (Db : Type 0) : Type 0 where
  pub db : Db
  pub serializer : EventSerializer
  pub config : EventStoreConfig

abbrev matches_option : Option AccountId → AccountId → Bool
matches_option none account_id = false
matches_option (some id) account_id = account_id_eq id account_id

unfoldable pub event_matches_account : EventEnvelope → AccountId → Bool
event_matches_account envelope account_id = elim (envelope.event_data) [
  | account_created event ↦ account_id_eq event.account_id account_id
  | account_status_changed event ↦ account_id_eq event.account_id account_id
  | account_metadata_updated event ↦ account_id_eq event.account_id account_id
  | transaction_processed event ↦
      matches_option event.from_account account_id || matches_option event.to_account account_id
  | balance_updated event ↦ account_id_eq event.account_id account_id
  | _ ↦ false
]

-- `Vec::contains` on event types.
abbrev pub contains : List String → String → Bool
contains [] s = false
contains (t ∷ ts) s = str_eq t s || contains ts s

-- The filters of `query_events`, in its order: by account, by end time, by type.
pub data Verdict : Type 0 where
  skip stop accept : Verdict

abbrev pub of_account : EventQuery → EventEnvelope → Bool
of_account query envelope = elim (query.account_id) [
  | none ↦ true
  | some account_id ↦ event_matches_account envelope account_id
]

abbrev pub past_end : EventQuery → EventEnvelope → Bool
past_end query envelope = elim (query.end_time) [
  | none ↦ false
  | some end_time ↦ before end_time envelope.timestamp
]

abbrev pub of_type : EventQuery → EventEnvelope → Bool
of_type query envelope = elim (query.event_types) [
  | none ↦ true
  | some event_types ↦ contains event_types envelope.event_type
]

unfoldable pub verdict : EventQuery → EventEnvelope → Verdict
verdict query envelope =
    if not (of_account query envelope)
    then skip
    else if past_end query envelope
    then stop
    else if not (of_type query envelope)
    then skip
    else accept

abbrev pub unwrap_or : Option ℕ → ℕ → ℕ
unwrap_or none d = d
unwrap_or (some n) d = n

-- What an iterator's item does after the last pair.
abbrev pub end_of_scan : {E : Type 0} {A : Type 0} → Option E → A → Result (EventStoreError E) A
end_of_scan none a = ok a
end_of_scan (some e) a = err (database_error e)

module _ {Db Error : Type 0} (p : Platform Db Error) where
  abbrev pub Outcome : Type 0 → Type 0
  Outcome A = Result (EventStoreError Error) A

  abbrev pub key_of : EventEnvelope → Bytes
  key_of envelope = generate_event_key p.chrono envelope

  abbrev pub already_exists : Bytes → EventStoreError Error
  already_exists key = concurrency_error (
      codes "Event with key "
      ++ p.debug_lossy key
      ++ codes " already exists. Append-only store prevents overwrites.")

  -- `if self.db.get(&key)?.is_some() { return Err(...) }`
  abbrev pub refuse_existing : Bytes → Option Bytes → Outcome (Unit {0})
  refuse_existing key none = ok tt
  refuse_existing key (some _) = err (already_exists key)

  abbrev pub check_absent : EventStore Db → Bytes → Outcome (Unit {0})
  check_absent self key = map_err database_error (p.rocks.get self.db key) >>= refuse_existing key

  abbrev pub encode : EventStore Db → EventEnvelope → Outcome Bytes
  encode self envelope = map_err serialization_error (serialize p.codec self.serializer envelope)

  abbrev pub decode : EventStore Db → Bytes → Outcome EventEnvelope
  decode self value = map_err serialization_error (deserialize p.codec self.serializer value)

  abbrev pub write_options : EventStore Db → WriteOptions
  write_options self = record { sync = self.config.sync_writes; disable_wal = false }

  -- The result of a write, with the handle that it leaves.
  abbrev pub written :
      {A : Type 0} → EventStore Db → A → Result Error (Unit {0}) × Db → Outcome A × EventStore Db
  written self a (r, db) = (map_err database_error r >>= λ _. ok a, record self { db = db })
