-- ===== src/Store/Query.antt =====
-- The reads of `EventStore`: `get_event`, `query_events` and its callers, `get_latest_events` and
-- `get_statistics`.
pub mod Window
pub mod Answer
pub mod Range
pub mod Pages
pub mod Statistics
pub mod Tests
use ledgerfs.Prelude.{
  ℕ, ◌+◌, Option, none, some, List, [], ◌∷◌, ◌++◌, reverse, ok, ◌>>=◌, if◌then◌else◌, length, take,
  ltb, leb, ◌==◌,
}
use ledgerfs.Core.Types.{AccountId, EventId, DateTime, before, event_id_eq}
use ledgerfs.Core.Events.{EventEnvelope}
use ledgerfs.Store.Keys.{generate_time_key_prefix}
use ledgerfs.Store.Table.{Entry}
use ledgerfs.Store.Rocks.{Scan, IteratorMode, start, end, from_forward}
use ledgerfs.Store.Platform.{Platform}
use ledgerfs.Store.EventStore.{
  EventStore, EventQuery, EventQueryResult, EventStoreStatistics, Outcome, decode, verdict, skip,
  stop, accept, unwrap_or, end_of_scan,
}

-- `.take(limit)` of an iterator: the error counts as an item.
abbrev pub take_items : {E : Type 0} → ℕ → Scan E → Scan E
take_items limit scan = record {
  entries = take limit scan.entries;
  fault = if ltb (length scan.entries) limit then scan.fault else none;
}

-- `is_none() || timestamp < ...unwrap()`, and the same for the newest.
abbrev pub older : Option DateTime → DateTime → Option DateTime
older none timestamp = some timestamp
older (some oldest) timestamp = if before timestamp oldest then some timestamp else some oldest

abbrev pub newer : Option DateTime → DateTime → Option DateTime
newer none timestamp = some timestamp
newer (some newest) timestamp = if before newest timestamp then some timestamp else some newest

module _ {Db Error : Type 0} (p : Platform Db Error) where
  unfoldable pub find_event :
      EventStore Db → EventId → Option Error → List Entry → Outcome p (Option EventEnvelope)
  find_event self event_id fault [] = end_of_scan fault none
  find_event self event_id fault ((_, value) ∷ entries) =
      let rest = find_event self event_id fault entries in
      do
        envelope ← decode p self value
        if event_id_eq envelope.event_id event_id then ok (some envelope) else rest

  unfoldable pub get_event : EventStore Db → EventId → Outcome p (Option EventEnvelope)
  get_event self event_id =
      let scan = p.rocks.iterator self.db start in find_event self event_id scan.fault scan.entries

  -- The loop of `query_events` from `count` on; the events are in the order of their pushes.
  pub collect :
      EventStore Db
      → EventQuery
      → ℕ
      → ℕ
      → ℕ
      → List EventEnvelope
      → Option Error
      → List Entry
      → Outcome p (List EventEnvelope)
  collect self query limit offset count events fault [] = end_of_scan fault events
  collect self query limit offset count events fault ((_, value) ∷ entries) =
      let skipped = collect self query limit offset count events fault entries in
      let counted = collect self query limit offset (count + 1) events fault entries in
      let pushed = λ (envelope : EventEnvelope).
        collect self query limit offset (count + 1) (events ++ envelope ∷ []) fault entries in
      do
        envelope ← decode p self value
        elim (verdict query envelope) [
          | skip ↦ skipped
          | stop ↦ ok events
          | accept ↦
              if ltb count offset
              then counted
              else if leb limit (length events)
              then ok events
              else pushed envelope
        ]

  -- Where the iteration begins.
  unfoldable pub query_mode : EventQuery → IteratorMode
  query_mode query = elim (query.start_time) [
    | none ↦ start
    | some start_time ↦ from_forward (generate_time_key_prefix p.chrono start_time)
  ]

  pub query_events : EventStore Db → EventQuery → Outcome p EventQueryResult
  unfolding query_mode
  query_events self query =
      let limit = unwrap_or query.limit 1000 in
      let offset = unwrap_or query.offset 0 in
      let scan = p.rocks.iterator self.db (query_mode query) in
      do
        events ← collect self query limit offset 0 [] scan.fault scan.entries
        ok (record { events = events; total_count = none; has_more = length events == limit })

  unfoldable pub get_account_events : EventStore Db → AccountId → Outcome p (List EventEnvelope)
  get_account_events self account_id = do
    result ← query_events self (record {
      account_id = some account_id;
      start_time = none;
      end_time = none;
      limit = none;
      offset = none;
      event_types = none;
    })
    ok result.events

  pub get_events_in_range : EventStore Db → DateTime → DateTime → Outcome p (List EventEnvelope)
  get_events_in_range self start_time end_time = do
    result ← query_events self (record {
      account_id = none;
      start_time = some start_time;
      end_time = some end_time;
      limit = none;
      offset = none;
      event_types = none;
    })
    ok result.events

  unfoldable pub decode_entries :
      EventStore Db → Option Error → List Entry → Outcome p (List EventEnvelope)
  decode_entries self fault [] = end_of_scan fault []
  decode_entries self fault ((_, value) ∷ entries) = do
    envelope ← decode p self value
    events ← decode_entries self fault entries
    ok (envelope ∷ events)

  unfoldable pub get_latest_events : EventStore Db → ℕ → Outcome p (List EventEnvelope)
  get_latest_events self limit =
      let scan = take_items limit (p.rocks.iterator self.db end) in
      do events ← decode_entries self scan.fault scan.entries; ok (reverse events)

  -- `get_database_size` returns 0.
  pub accumulate :
      EventStore Db
      → EventStoreStatistics
      → Option Error
      → List Entry
      → Outcome p EventStoreStatistics
  accumulate self stats fault [] = end_of_scan fault stats
  accumulate self stats fault ((_, value) ∷ entries) = do
    envelope ← decode p self value
    accumulate self
        (record {
          total_events = stats.total_events + 1;
          oldest_event = older stats.oldest_event envelope.timestamp;
          newest_event = newer stats.newest_event envelope.timestamp;
          database_size_bytes = 0;
        })
        fault entries

  pub get_statistics : EventStore Db → Outcome p EventStoreStatistics
  get_statistics self =
      let scan = p.rocks.iterator self.db start in
      accumulate self
        (record {
          total_events = 0;
          oldest_event = none;
          newest_event = none;
          database_size_bytes = 0;
        })
        scan.fault scan.entries
