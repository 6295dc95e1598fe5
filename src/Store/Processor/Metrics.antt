-- ===== src/Store/Processor/Metrics.antt =====
-- `BatchMetrics` and the two halves of `flush_batch` of crates/ledgerfs-event-store/src/batch.rs.
-- Counters are unbounded here, where the code's wrap after 2^64. An `f64` and its operations are
-- parameters. Durations and times are in nanoseconds.
use ledgerfs.Prelude.{ℕ, ◌+◌, ◌-◌, Bool, Option, none, some, List, Result, ok, err, if◌then◌else◌}
use ledgerfs.Core.Events.{EventEnvelope}
use ledgerfs.Store.Platform.{Platform}
use ledgerfs.Store.EventStore.{EventStoreError, EventStore, Outcome, AppendResult}
use ledgerfs.Store.Append.{append_events, append_events_optimized}
use ledgerfs.Store.Batch.{BatchConfig}
use ledgerfs.Store.Processor.Failure.{is_violation}

-- What is used of `f64`: `n as f64`, `as_secs_f64` of nanoseconds, `/`, `*`, `+`, `>`, `as u64`.
pub record Float (F : Type 0) : Type 0 where
  pub of_nat : ℕ → F
  pub as_secs : ℕ → F
  pub div : F → F → F
  pub mul : F → F → F
  pub plus : F → F → F
  pub gt : F → F → Bool
  pub as_u64 : F → ℕ

pub record BatchMetrics (F : Type 0) : Type 0 where
  pub total_events_processed : ℕ
  pub total_batches_processed : ℕ
  pub average_batch_size : F
  pub events_per_second : F
  pub last_batch_time : Option ℕ
  pub processing_errors : ℕ
  pub total_bytes_written : ℕ
  pub average_write_latency : ℕ
  pub peak_throughput : F
  pub append_only_violations : ℕ

module _ {F : Type 0} (f : Float F) where
  abbrev pub default_metrics : BatchMetrics F
  default_metrics = record {
    total_events_processed = 0;
    total_batches_processed = 0;
    average_batch_size = f.of_nat 0;
    events_per_second = f.of_nat 0;
    last_batch_time = none;
    processing_errors = 0;
    total_bytes_written = 0;
    average_write_latency = 0;
    peak_throughput = f.of_nat 0;
    append_only_violations = 0;
  }

  abbrev throughput_since : ℕ → ℕ → BatchMetrics F → F
  throughput_since batch_size start_time metrics = elim (metrics.last_batch_time) [
    | none ↦ metrics.events_per_second
    | some last_time ↦
        let time_diff = f.as_secs (start_time - last_time) in
        if f.gt time_diff (f.of_nat 0)
        then f.div (f.of_nat batch_size) time_diff
        else metrics.events_per_second
  ]

  abbrev bytes_of : Option AppendResult → ℕ
  bytes_of none = 0
  bytes_of (some r) = r.bytes_written

  -- The branch of a batch that was appended.
  unfoldable pub count_success : ℕ → ℕ → ℕ → Option AppendResult → BatchMetrics F → BatchMetrics F
  count_success batch_size start_time duration append_result metrics =
      let events = metrics.total_events_processed + batch_size in
      let batches = metrics.total_batches_processed + 1 in
      let current_throughput = f.div (f.of_nat batch_size) (f.as_secs duration) in
      let total_latency = f.mul (f.of_nat metrics.average_write_latency) (f.of_nat batches) in
      record metrics {
        total_events_processed = events;
        total_batches_processed = batches;
        average_batch_size = f.div (f.of_nat events) (f.of_nat batches);
        peak_throughput =
            if f.gt current_throughput metrics.peak_throughput
            then current_throughput
            else metrics.peak_throughput;
        events_per_second = throughput_since batch_size start_time metrics;
        last_batch_time = some start_time;
        average_write_latency =
            f.as_u64 (f.div (f.plus total_latency (f.of_nat duration)) (f.of_nat (batches + 1)));
        total_bytes_written = metrics.total_bytes_written + bytes_of append_result;
      }

  -- The branch of a batch that failed, with whether the error is a violation.
  unfoldable pub count_failure : Bool → BatchMetrics F → BatchMetrics F
  count_failure violation metrics = record metrics {
    processing_errors = metrics.processing_errors + 1;
    append_only_violations =
        if violation then metrics.append_only_violations + 1 else metrics.append_only_violations;
  }

module _ {Db Error : Type 0} (p : Platform Db Error) where
  abbrev pub Flushed : Type 0
  Flushed = Result (EventStoreError Error) (Option AppendResult)

  abbrev with_result : Outcome p AppendResult → Flushed
  with_result (ok r) = ok (some r)
  with_result (err e) = err e

  abbrev without_result : Outcome p (Unit {0}) → Flushed
  without_result (ok _) = ok none
  without_result (err e) = err e

  -- The append of `flush_batch`.
  unfoldable pub append_batch :
      BatchConfig → EventStore Db → List EventEnvelope → ℕ → Flushed × EventStore Db
  append_batch config store events elapsed =
      if config.use_optimized_append
      then (let (r, after) = append_events_optimized p store events elapsed in
          (with_result r, after))
      else (let (r, after) = append_events p store events in (without_result r, after))

  unfoldable pub count_flush :
      {F : Type 0} → Float F → ℕ → ℕ → ℕ → Flushed → BatchMetrics F → BatchMetrics F
  count_flush f batch_size start_time duration (ok r) metrics =
      count_success f batch_size start_time duration r metrics
  count_flush f batch_size start_time duration (err e) metrics =
      count_failure f (is_violation p e) metrics
