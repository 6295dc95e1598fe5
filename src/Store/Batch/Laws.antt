-- ===== src/Store/Batch/Laws.antt =====
-- What the synchronous writer of batch.rs does with its events.
use ledgerfs.Prelude.{ℕ, ◌≡◌, ◌<◌, List, sym, ap, ◌∙◌, refl, false, [], ◌∷◌, ok, err, arith, length}
use ledgerfs.Core.Events.{EventEnvelope}
use ledgerfs.Store.Table.{Table}
use ledgerfs.Store.Platform.{Platform, IsPlatform}
use ledgerfs.Store.EventStore.{EventStore, EventStoreError}
use ledgerfs.Store.Append.{append_events}
use ledgerfs.Store.Append.Laws.{Appended}
use ledgerfs.Store.Append.History.{append_events_all, append_events_nothing}
use ledgerfs.Store.Batch.{SyncBatchWriter, flush, flush_if_full}

module _ {Db Error : Type 0} (p : Platform Db Error) (contents : Db → Table)
    (documented : IsPlatform p contents) where
  flushed :
      (store : EventStore Db) (es : List EventEnvelope) (n : ℕ)
      → flush p (record { event_store = store; pending_events = es; max_batch_size = n }) ≡ (
        (append_events p store es).0,
        record {
          event_store = (append_events p store es).1;
          pending_events = [];
          max_batch_size = n;
        },
      )
  unfolding flush append_events
  flushed store [] n = refl
  flushed store (e ∷ es) n = refl

  -- A flush that returns `Ok` has appended all pending events, and has none left.
  pub flush_all :
      (self : SyncBatchWriter Db)
      → (flush p self).0 ≡ ok tt
      → Appended p contents documented self.event_store self.pending_events
          (flush p self).1.event_store
        × ((flush p self).1.pending_events ≡ [])
  flush_all self good =
      let e = flushed self.event_store self.pending_events self.max_batch_size in
      let done =
        append_events_all p contents documented self.event_store self.pending_events
          (ap (λ r. r.0) (sym e) ∙ good) in
      rw e (done, refl)

  -- A flush that fails has stored nothing, and its events are no longer pending.
  pub flush_loses :
      (self : SyncBatchWriter Db) (x : EventStoreError Error)
      → (flush p self).0 ≡ err x
      → (contents (flush p self).1.event_store.db ≡ contents self.event_store.db)
        × ((flush p self).1.pending_events ≡ [])
  flush_loses self x h =
      let e = flushed self.event_store self.pending_events self.max_batch_size in
      let kept =
        append_events_nothing p contents documented self.event_store self.pending_events x
          (ap (λ r. r.0) (sym e) ∙ h) in
      rw e (kept, refl)

  -- A writer below its limit does nothing.
  pub flush_if_full-waits :
      (self : SyncBatchWriter Db)
      → length self.pending_events < self.max_batch_size
      → flush_if_full p self ≡ (ok false, self)
  unfolding flush_if_full
  flush_if_full-waits self h = ground arith
