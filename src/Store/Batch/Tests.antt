-- ===== src/Store/Batch/Tests.antt =====
-- The synchronous writer at concrete events.
use ledgerfs.Prelude.{◌≡◌, false, [], ◌∷◌, ok, err, arith}
use ledgerfs.Store.EventStore.{key_of, already_exists}
use ledgerfs.Store.Append.Laws.{Appended}
use ledgerfs.Store.Append.Tests.{stored, refused, pair_appended}
use ledgerfs.Store.Tests.Memory.{Memory, memory, memory-IsPlatform, held, empty_store, first, twin}
use ledgerfs.Store.Batch.{SyncBatchWriter, flush, flush_if_full}
use ledgerfs.Store.Batch.Laws.{flush_all, flush_loses, flush_if_full-waits}

abbrev with_pair : SyncBatchWriter Memory
with_pair = record {
  event_store = empty_store;
  pending_events = first ∷ twin ∷ [];
  max_batch_size = 3;
}

pair_flushed : (flush memory with_pair).0 ≡ ok tt
unfolding flush
pair_flushed = pair_appended

flush_all_test :
    Appended memory held memory-IsPlatform empty_store
      (first ∷ twin ∷ [])
      (flush memory with_pair).1.event_store
    × ((flush memory with_pair).1.pending_events ≡ [])
flush_all_test = flush_all memory held memory-IsPlatform with_pair pair_flushed

abbrev with_stored : SyncBatchWriter Memory
with_stored = record { event_store = stored; pending_events = first ∷ []; max_batch_size = 3 }

stored_refused : (flush memory with_stored).0 ≡ err (already_exists memory (key_of memory first))
unfolding flush
stored_refused = refused

flush_loses_example :
    (held (flush memory with_stored).1.event_store.db ≡ held stored.db)
    × ((flush memory with_stored).1.pending_events ≡ [])
flush_loses_example =
    flush_loses memory held memory-IsPlatform with_stored
      (already_exists memory (key_of memory first)) stored_refused

flush_if_full-waits_test : flush_if_full memory with_pair ≡ (ok false, with_pair)
flush_if_full-waits_test = flush_if_full-waits memory held memory-IsPlatform with_pair (omega arith)
