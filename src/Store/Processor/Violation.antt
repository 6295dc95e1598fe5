-- ===== src/Store/Processor/Violation.antt =====
-- A flush that meets a stored key, in crates/ledgerfs-event-store/src/batch.rs.
use ledgerfs.Prelude.{ℕ, ◌+◌, ◌≡◌, refl, some, List, ◌∷◌, ok, err, Bool-cases, inl, inr}
use ledgerfs.Prelude.Bytes.{Bytes}
use ledgerfs.Core.Events.{EventEnvelope}
use ledgerfs.Store.Platform.{Platform}
use ledgerfs.Store.EventStore.{EventStore, key_of, already_exists}
use ledgerfs.Store.Append.Refused.{append_events_refused, append_events_optimized_refused}
use ledgerfs.Store.Batch.{BatchConfig}
use ledgerfs.Store.Processor.Failure.{already_exists-is_violation}
use ledgerfs.Store.Processor.Metrics.{Float, BatchMetrics, append_batch, count_flush, count_failure}

module _ {Db Error F : Type 0} (p : Platform Db Error) (f : Float F) where
  append_batch_refused :
      (config : BatchConfig) (store : EventStore Db) (e : EventEnvelope) (es : List EventEnvelope)
      (elapsed : ℕ) (v : Bytes)
      → p.rocks.get store.db (key_of p e) ≡ ok (some v)
      → append_batch p config store (e ∷ es) elapsed ≡ (err (already_exists p (key_of p e)), store)
  unfolding append_batch
  append_batch_refused config store e es elapsed v h =
      elim (Bool-cases config.use_optimized_append) [
        | inl good ↦ rw good (rw (append_events_optimized_refused p store e es v elapsed h) refl)
        | inr bad ↦ rw bad (rw (append_events_refused p store e es v h) refl)
      ]

  -- A flush whose first event has a key that the store holds leaves the store as it was and is counted
  -- as one processing error and one violation; no event and no batch is counted.
  pub append_batch-violation :
      (config : BatchConfig) (store : EventStore Db) (e : EventEnvelope) (es : List EventEnvelope)
      (elapsed batch_size start_time duration : ℕ) (metrics : BatchMetrics F) (v : Bytes)
      → p.rocks.get store.db (key_of p e) ≡ ok (some v)
      → let (r, after) = append_batch p config store (e ∷ es) elapsed in
        let counted = count_flush p f batch_size start_time duration r metrics in
        (after ≡ store)
        × (counted.processing_errors ≡ metrics.processing_errors + 1)
        × (counted.append_only_violations ≡ metrics.append_only_violations + 1)
        × (counted.total_events_processed ≡ metrics.total_events_processed)
        × (counted.total_batches_processed ≡ metrics.total_batches_processed)
  unfolding count_flush count_failure
  append_batch-violation config store e es elapsed batch_size start_time duration metrics v h =
      rw (append_batch_refused config store e es elapsed v h)
        (rw (already_exists-is_violation p (key_of p e)) (refl, refl, refl, refl, refl))
