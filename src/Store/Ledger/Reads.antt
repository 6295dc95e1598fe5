-- ===== src/Store/Ledger/Reads.antt =====
-- What the queries return after any operations: the composition of the appends with the reads of
-- crates/ledgerfs-event-store/src/store.rs.
use mathlib.Core.List.{Permᴰ, append-nil}
use ledgerfs.Prelude.{
  ℕ, ◌≡◌, refl, ◌∙◌, ap, true, Option, none, some, List, [], ◌∷◌, ok, arith, All, take, drop,
  filter, take_while, length, ◌==◌, if◌then◌else◌,
}
use ledgerfs.Prelude.Int.{pos, ◌<ℤ◌, InI64}
use ledgerfs.Core.Types.{DateTime, EventId, event_id_eq}
use ledgerfs.Core.Events.{EventEnvelope}
use ledgerfs.Store.Table.{Table}
use ledgerfs.Store.Keys.Order.{IsStampable}
use ledgerfs.Store.Rocks.{start}
use ledgerfs.Store.Platform.{Platform, IsPlatform}
use ledgerfs.Store.EventStore.{EventStore, EventQuery, key_of}
use ledgerfs.Store.Append.History.{Operation, perform_all}
use ledgerfs.Store.Query.{query_events, query_mode, get_events_in_range, find_event}
use ledgerfs.Store.Query.Window.{matching}
use ledgerfs.Store.Query.Answer.{Decodes, query_events_answer}
use ledgerfs.Store.Query.Range.{
  Stored, InTime, Stored-InTime, in_range, range_query, filter_all, get_events_in_range_answer,
  get_events_in_range_none,
}
use ledgerfs.Store.Ledger.{ledger_all, recorded, events_of}
use ledgerfs.Store.Ledger.Refinement.{Kept, Holds, perform_all-Holds}
use ledgerfs.Store.Ledger.Records.{
  InKeyOrder, Kept-InKeyOrder, DistinctAll, ledger_all-Perm, All-ledger_all,
}

-- The query of all events, a page at a time.
abbrev pub page_query : Option ℕ → Option ℕ → EventQuery
page_query limit offset = record {
  account_id = none;
  start_time = none;
  end_time = none;
  limit = limit;
  offset = offset;
  event_types = none;
}

-- The first event of the identifier.
abbrev pub find_first : EventId → List EventEnvelope → Option EventEnvelope
find_first id [] = none
find_first id (e ∷ l) = if event_id_eq e.event_id id then some e else find_first id l

pub take_while_all : (l : List EventEnvelope) → take_while (λ e. true) l ≡ l
take_while_all [] = refl
take_while_all (e ∷ l) = ap (λ (rest : List EventEnvelope). e ∷ rest) (take_while_all l)

pub matching_all :
    (limit offset : ℕ) (l : List EventEnvelope)
    → matching (page_query (some limit) (some offset)) l ≡ l
matching_all limit offset l = rw filter_all (rw filter_all (take_while_all l))

module _ {Db Error : Type 0} (p : Platform Db Error) where
  pub Kept-Decodes :
      (self : EventStore Db) (t : Table) (l : List EventEnvelope)
      → Kept p self.serializer t l
      → Decodes p self t l
  Kept-Decodes self [] [] h = tt
  Kept-Decodes self [] (e ∷ l) h = absurd h
  Kept-Decodes self (entry ∷ t) [] h = absurd h
  Kept-Decodes self ((k, v) ∷ t) (e ∷ l) (own, d, h) = (rw d refl, Kept-Decodes self t l h)

  pub find_event_answer :
      (self : EventStore Db) (id : EventId) (t : Table) (l : List EventEnvelope)
      → Decodes p self t l
      → find_event p self id none t ≡ ok (find_first id l)
  unfolding find_event
  find_event_answer self id [] [] h = refl
  find_event_answer self id [] (e ∷ l) h = absurd h
  find_event_answer self id (entry ∷ t) [] h = absurd h
  find_event_answer self id ((k, v) ∷ t) (e ∷ l) (d, h) = rw (d) (
      ap (λ r. if event_id_eq e.event_id id then ok (some e) else r)
        (find_event_answer self id t l h)
      ∙ ground arith)

module _ {Db Error : Type 0} (p : Platform Db Error) (contents : Db → Table)
    (documented : IsPlatform p contents) where
  Kept-Stored :
      (self : EventStore Db) (t : Table) (l : List EventEnvelope)
      → Kept p self.serializer t l
      → All (λ e. IsStampable e.timestamp) l
      → Stored p contents documented self t l
  Kept-Stored self [] [] h a = tt
  Kept-Stored self [] (e ∷ l) h a = absurd h
  Kept-Stored self (entry ∷ t) [] h a = absurd h
  Kept-Stored self ((k, v) ∷ t) (e ∷ l) (own, d, h) a =
      (own, a.0, rw d refl, Kept-Stored self t l h a.1)

  -- What a store that was empty holds after any operations, none with two events of one key: the
  -- events of those that returned `Ok`, in the order of their keys.
  pub history :
      (self : EventStore Db) (operations : List Operation)
      → contents self.db ≡ []
      → DistinctAll p contents documented operations
      → Holds p contents documented
          (perform_all p self operations)
          (ledger_all p self operations [])
        × Permᴰ (ledger_all p self operations []) (recorded p self operations)
        × InKeyOrder (key_of p) (ledger_all p self operations [])
  history self operations empty distinct =
      let none_held : Holds p contents documented self [] = rw empty tt in
      let held = perform_all-Holds p contents documented self operations [] none_held in
      (
        held,
        rw (append-nil (recorded p self operations)) at
            (ledger_all-Perm p contents documented self operations [] distinct none_held),
        Kept-InKeyOrder p (perform_all p self operations).serializer
            (contents (perform_all p self operations).db) (ledger_all p self operations []) held
            (documented.is_rocks.sorted (perform_all p self operations).db),
      )

  -- Events of times from 1970 on that fit an `i64` are held in the order of their times.
  pub history-Stored :
      (self : EventStore Db) (operations : List Operation)
      → contents self.db ≡ []
      → DistinctAll p contents documented operations
      → All (λ operation. All (λ e. IsStampable e.timestamp) (events_of operation)) operations
      → Stored p contents documented
          (perform_all p self operations)
          (contents (perform_all p self operations).db)
          (ledger_all p self operations [])
        × InTime (ledger_all p self operations [])
  history-Stored self operations empty distinct stampable =
      let after = perform_all p self operations in
      let l = ledger_all p self operations [] in
      let (held, perm, order) = history self operations empty distinct in
      let stored = Kept-Stored after (contents after.db) l held (
        All-ledger_all p contents documented (λ e. IsStampable e.timestamp) self operations []
          stampable tt) in
      (
        stored,
        Stored-InTime p contents documented after (contents after.db) l
            (documented.is_rocks.sorted after.db) stored,
      )

  -- Of a store that was empty, after any operations, none with two events of one key, a query for
  -- all events whose iteration meets no error returns the events of the operations that returned
  -- `Ok`, each once, in the order of their keys, from the offset on and at most `limit` of them.
  pub query_events-perform_all :
      (self : EventStore Db) (operations : List Operation) (limit offset : ℕ)
      → contents self.db ≡ []
      → DistinctAll p contents documented operations
      → (p.rocks.iterator (perform_all p self operations).db start).fault ≡ none
      → (l : List EventEnvelope) × Permᴰ l (recorded p self operations)
        × InKeyOrder (key_of p) l
        × (query_events p (perform_all p self operations) (page_query (some limit) (some offset))
            ≡ ok (record {
              events = take limit (drop offset l);
              total_count = none;
              has_more = length (take limit (drop offset l)) == limit;
            }))
  unfolding query_mode
  query_events-perform_all self operations limit offset empty distinct quiet =
      let after = perform_all p self operations in
      let l = ledger_all p self operations [] in
      let (held, perm, order) = history self operations empty distinct in
      let answer =
        query_events_answer p contents documented after (page_query (some limit) (some offset)) l
          quiet (Kept-Decodes p after (contents after.db) l held) in
      (l, perm, order, rw (matching_all limit offset l) at answer)

  -- Of a store that was empty, after any operations, none with two events of one key, a range query
  -- whose iteration meets no error returns the events of the range among those of the operations
  -- that returned `Ok`, in the order of time, but no more than 1000: where the times of the events and
  -- of the start are from 1970 on and their nanoseconds fit an `i64`.
  pub get_events_in_range-perform_all :
      (self : EventStore Db) (operations : List Operation) (start_time end_time : DateTime)
      → contents self.db ≡ []
      → DistinctAll p contents documented operations
      → All (λ operation. All (λ e. IsStampable e.timestamp) (events_of operation)) operations
      → IsStampable start_time
      → (p.rocks.iterator
          (perform_all p self operations).db
          (query_mode p (range_query start_time end_time))).fault
        ≡ none
      → (l : List EventEnvelope) × Permᴰ l (recorded p self operations)
        × InTime l
        × (get_events_in_range p (perform_all p self operations) start_time end_time
            ≡ ok (take 1000 (filter (in_range start_time end_time) l)))
  get_events_in_range-perform_all self operations start_time end_time empty distinct stampable s
        quiet =
      let after = perform_all p self operations in
      let l = ledger_all p self operations [] in
      let (held, perm, order) = history self operations empty distinct in
      let (stored, in_time) = history-Stored self operations empty distinct stampable in
      (
        l,
        perm,
        in_time,
        get_events_in_range_answer p contents documented after start_time end_time l stored s quiet,
      )

  -- Of a store that was empty, after any operations with events of times from 1970 on whose nanoseconds
  -- fit an `i64`, none with two events of one key, a range query that starts before 1970, as far back
  -- as an `i64` of nanoseconds reaches, and whose iteration meets no error returns no events.
  pub get_events_in_range_before_epoch :
      (self : EventStore Db) (operations : List Operation) (start_time end_time : DateTime)
      → contents self.db ≡ []
      → DistinctAll p contents documented operations
      → All (λ operation. All (λ e. IsStampable e.timestamp) (events_of operation)) operations
      → start_time <ℤ pos 0
      → InI64 start_time
      → (p.rocks.iterator
          (perform_all p self operations).db
          (query_mode p (range_query start_time end_time))).fault
        ≡ none
      → get_events_in_range p (perform_all p self operations) start_time end_time ≡ ok []
  get_events_in_range_before_epoch self operations start_time end_time empty distinct stampable old
        fits quiet =
      let after = perform_all p self operations in
      let (stored, _) = history-Stored self operations empty distinct stampable in
      get_events_in_range_none p contents documented after start_time end_time
        (ledger_all p self operations []) stored old fits quiet
