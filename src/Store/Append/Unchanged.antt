-- ===== src/Store/Append/Unchanged.antt =====
-- The appends of crates/ledgerfs-event-store/src/store.rs leave the serializer alone.
use ledgerfs.Prelude.{ℕ, ◌≡◌, refl, ◌∙◌, List, [], ◌∷◌, Result, ok, err, arith}
use ledgerfs.Core.Events.{EventEnvelope}
use ledgerfs.Store.Table.{Entry, Table}
use ledgerfs.Store.Platform.{Platform, IsPlatform}
use ledgerfs.Store.EventStore.{EventStoreError, EventStore}
use ledgerfs.Store.Append.{
  prepare_event, put_entry, append_event, append_events, append_events_optimized, write_batch,
  write_optimized, compact,
}
use ledgerfs.Store.Append.History.{
  Operation, single, several, optimized, compaction, perform, perform_all,
}

module _ {Db Error : Type 0} (p : Platform Db Error) where
  put_entry-serializer :
      (self : EventStore Db) (r : Result (EventStoreError Error) Entry)
      → (put_entry p self r).1.serializer ≡ self.serializer
  unfolding put_entry
  put_entry-serializer self (ok entry) = refl
  put_entry-serializer self (err e) = refl

  pub append_events-serializer :
      (self : EventStore Db) (es : List EventEnvelope)
      → (append_events p self es).1.serializer ≡ self.serializer
  unfolding append_events write_batch
  append_events-serializer self [] = refl
  append_events-serializer self (e ∷ es) = ground arith

  pub append_events_optimized-serializer :
      (self : EventStore Db) (es : List EventEnvelope) (elapsed : ℕ)
      → (append_events_optimized p self es elapsed).1.serializer ≡ self.serializer
  unfolding append_events_optimized write_optimized
  append_events_optimized-serializer self [] elapsed = refl
  append_events_optimized-serializer self (e ∷ es) elapsed = ground arith

  pub perform-serializer :
      (self : EventStore Db) (operation : Operation)
      → (perform p self operation).serializer ≡ self.serializer
  unfolding perform append_event compact
  perform-serializer self (single envelope) =
      put_entry-serializer self (prepare_event p self envelope)
  perform-serializer self (several envelopes) = append_events-serializer self envelopes
  perform-serializer self (optimized envelopes elapsed) =
      append_events_optimized-serializer self envelopes elapsed
  perform-serializer self compaction = refl

  pub perform_all-serializer :
      (self : EventStore Db) (operations : List Operation)
      → (perform_all p self operations).serializer ≡ self.serializer
  unfolding perform_all
  perform_all-serializer self [] = refl
  perform_all-serializer self (operation ∷ operations) =
      perform_all-serializer (perform p self operation) operations
      ∙ perform-serializer self operation

module _ {Db Error : Type 0} (p : Platform Db Error) (contents : Db → Table)
    (documented : IsPlatform p contents) where
  pub compact_keeps : (self : EventStore Db) → contents (compact p self).1.db ≡ contents self.db
  unfolding compact
  compact_keeps self = documented.is_rocks.compact_keeps self.db
