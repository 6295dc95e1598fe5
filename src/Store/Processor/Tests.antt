-- ===== src/Store/Processor/Tests.antt =====
-- A processor with one task that receives two events, on the database in memory.
mod Queue
mod Pair
use ledgerfs.Prelude.Bytes.{Bytes}
use ledgerfs.Prelude.Int.{pos}
use ledgerfs.Store.Keys.{generate_event_key, be_bytes}
use ledgerfs.Prelude.{
  false, ◌≤◌, get_or, ap, arith, Bool, none, some, ok, take, drop, ◌==◌, count, length, ◌≡◌, String,
  ℕ, ◌+◌, ◌*◌, ◌/◌, refl, true, List, [], ◌∷◌, ltb, sym,
}
use ledgerfs.Core.Events.{EventEnvelope}
use ledgerfs.Store.Tests.Memory.{
  Memory, memory, held, memory-IsPlatform, empty_store, first, second,
}
use ledgerfs.Store.EventStore.{EventQuery, key_of}
use ledgerfs.Store.Query.{query_events}
use ledgerfs.Store.Processor.Signals.{shutdown_lost}
use ledgerfs.Store.Processor.Batches.{weigh, successes, failures, Reach-batches}
use ledgerfs.Store.Processor.Violation.{append_batch-violation}
use ledgerfs.Store.Append.Tests.{both_appended, turned_appended, stored, stored_first}
use ledgerfs.Store.Ledger.{recorded, accepted}
use ledgerfs.Store.Ledger.Records.{InKeyOrder}
use ledgerfs.Store.Ledger.Reads.{page_query}
use ledgerfs.Store.Processor.Replay.{refused}
use ledgerfs.Store.Processor.Accounts.{Accounts, Reach-Accounts}
use ledgerfs.Store.Processor.Drain.{Run, idle, then_step, work_left, Run-work}
use ledgerfs.Store.Processor.Progress.{IsAlone, Run-all_stopped}
use ledgerfs.Store.Processor.Settled.{NoShutdown, all_stopped-settled, all_stopped-left}
use ledgerfs.Store.Processor.Served.{query_events-settled}
use ledgerfs.Store.Processor.Schedules.{query_events-schedules}
use ledgerfs.Store.Batch.{BatchConfig, new_batch}
use ledgerfs.Store.Processor.Tests.Queue.{Buffer, buffer, documented_buffer}
use ledgerfs.Store.Processor.Tests.Pair.{whole, pairs_of, end_of, processed, unhindered, ended}
use ledgerfs.Store.Processor.Metrics.{Float, append_batch, count_flush, default_metrics}
use ledgerfs.Store.Processor.Worker.{
  entered, notified, on_shutdown, collecting, flushing, stopped, received, disconnected, appended,
  counted, on_event, on_closed, flush_operation,
}
use ledgerfs.Store.Processor.System.{
  shuts_down, System, initial, start, send, shutdown, all_stopped, Reach, started, later, worked,
  sends, closes,
}

abbrev pairs : BatchConfig
pairs = pairs_of true

abbrev both : List EventEnvelope
both = first ∷ second ∷ []

abbrev end : System Memory String ℕ Buffer
end = end_of true first second

all_stopped-settled_example :
    (end.shared.channel.queue ≡ [])
    × ((q : EventEnvelope → Bool)
        → count q both
          ≡ count q (recorded memory empty_store end.history)
            + count q (refused memory empty_store end.history))
    × (end.shared.metrics.total_events_processed ≡ length (recorded memory empty_store end.history))
all_stopped-settled_example =
    all_stopped-settled memory whole buffer documented_buffer pairs (processed true first second)
      (omega arith) (unhindered true first second) (ended true first second)

nothing_refused : refused memory empty_store end.history ≡ []
unfolding refused accepted
nothing_refused = rw both_appended refl

keys_differ : key_of memory first ≡ key_of memory second → ⊥
unfolding generate_event_key be_bytes
keys_differ h = absurd (omega (arith, ap (λ (b : Bytes). get_or b 6 0) h))

query_events-settled_example :
    (l : List EventEnvelope) × ((q : EventEnvelope → Bool) → count q l ≡ count q both)
    × InKeyOrder (key_of memory) l
    × (query_events memory end.shared.store (page_query (some 10) (some 0))
        ≡ ok (record {
          events = take 10 (drop 0 l);
          total_count = none;
          has_more = length (take 10 (drop 0 l)) == 10;
        }))
query_events-settled_example =
    query_events-settled memory held memory-IsPlatform whole buffer documented_buffer pairs
      (processed true first second) 10 0 refl (omega arith) (unhindered true first second)
      (ended true first second) nothing_refused (((keys_differ, tt), (tt, tt)), tt) refl

Reach-Accounts_example : Accounts memory whole buffer documented_buffer pairs empty_store end
Reach-Accounts_example =
    Reach-Accounts memory whole buffer documented_buffer pairs (processed true first second)

Reach-batches_example :
    (end.shared.metrics.total_batches_processed + 0
      ≡ weigh memory successes empty_store end.history)
    × (end.shared.metrics.processing_errors + 0 ≡ weigh memory failures empty_store end.history)
Reach-batches_example =
    Reach-batches memory whole buffer documented_buffer pairs (processed true first second)

-- One event in a closed channel, and a task that waits.
abbrev begun : System Memory String ℕ Buffer
begun = initial whole pairs empty_store 0 (record { queue = []; is_closed = false; size = 2 })

abbrev closing : System Memory String ℕ Buffer
closing = record begun {
  shared = record (begun.shared) {
    channel = record { queue = first ∷ []; is_closed = true; size = 2 };
  };
  workers = collecting (new_batch 0) false ∷ [];
  sent = first ∷ [];
}

Run-all_stopped_example :
    (m : ℕ) × (last : System Memory String ℕ Buffer) × (run : Run memory whole buffer
      documented_buffer pairs closing m last)
    × IsAlone memory whole buffer documented_buffer pairs run
    × (m ≤ work_left memory whole buffer documented_buffer pairs closing)
    × (all_stopped last.workers ≡ true)
Run-all_stopped_example = Run-all_stopped memory whole buffer documented_buffer pairs closing refl

abbrev taken : System Memory String ℕ Buffer
taken = record closing {
  shared = record (closing.shared) { channel = record { queue = []; is_closed = true; size = 2 } };
  workers = collecting (record { events = first ∷ []; created_at = 0 }) false ∷ [];
}

one_step : Run memory whole buffer documented_buffer pairs closing 1 taken
unfolding on_event
one_step =
    then_step idle
      (worked [] [] refl (received first (record { queue = []; is_closed = true; size = 2 }) refl))

Run-work_example :
    1 + work_left memory whole buffer documented_buffer pairs taken
    ≤ work_left memory whole buffer documented_buffer pairs closing
Run-work_example = Run-work memory whole buffer documented_buffer pairs one_step refl

append_batch-violation_example :
    let (r, after) = append_batch memory pairs stored (first ∷ second ∷ []) 5 in
    let counted = count_flush memory whole 2 0 0 r (default_metrics whole) in
    (after ≡ stored)
    × (counted.processing_errors ≡ 1)
    × (counted.append_only_violations ≡ 1)
    × (counted.total_events_processed ≡ 0)
    × (counted.total_batches_processed ≡ 0)
append_batch-violation_example =
    append_batch-violation memory whole pairs stored first (second ∷ []) 5 2 0 0
      (default_metrics whole) (1 ∷ []) (ap ok stored_first)

-- The one task has received both events and flushes them.
abbrev flushing_both : System Memory String ℕ Buffer
flushing_both = record begun {
  workers = flushing (record { events = both; created_at = 0 }) 0 false ∷ [];
  sent = both;
}

shutdown_lost_test : shutdown flushing_both ≡ flushing_both
shutdown_lost_test = shutdown_lost flushing_both (refl, tt)

-- The same events in the other order, without the optimised append.
abbrev turned : System Memory String ℕ Buffer
turned = end_of false second first

turned_accepted : refused memory empty_store turned.history ≡ []
unfolding refused accepted
turned_accepted = rw turned_appended refl

same_sent : (q : EventEnvelope → Bool) → count q both ≡ count q turned.sent
same_sent q = omega arith

-- A shutdown while an event waits in the channel: the task takes the notification, and the event is
-- left.
abbrev waiting : Buffer
waiting = record { queue = first ∷ []; is_closed = false; size = 2 }

abbrev shut : System Memory String ℕ Buffer
shut = record begun {
  shared = record (begun.shared) { channel = waiting };
  workers = stopped ∷ [];
  sent = first ∷ [];
}

shut_down : Reach memory whole buffer pairs empty_store 0 shut
unfolding start send shutdown on_shutdown all_stopped
shut_down =
    later
      (later
        (later (later (started refl) (worked [] [] refl (entered refl)))
          (sends first waiting refl refl))
        shuts_down)
      (worked [] [] refl notified)

shut_ended : all_stopped shut.workers ≡ true
unfolding all_stopped
shut_ended = refl

all_stopped-left_example :
    ((q : EventEnvelope → Bool)
      → count q (first ∷ [])
        ≡ count q (recorded memory empty_store [])
          + count q (refused memory empty_store [])
          + count q (first ∷ []))
    × (0 ≡ length (recorded memory empty_store []))
all_stopped-left_example =
    all_stopped-left memory whole buffer documented_buffer pairs shut_down shut_ended

-- The query of the events from a time on.
abbrev later_query : EventQuery
later_query = record (page_query (some 10) none) { start_time = some (pos 400) }

query_events-schedules_example :
    query_events memory end.shared.store later_query
    ≡ query_events memory turned.shared.store later_query
query_events-schedules_example =
    query_events-schedules memory held memory-IsPlatform whole whole buffer buffer documented_buffer
      documented_buffer pairs (pairs_of false) (processed true first second)
      (processed false second first) later_query same_sent refl refl (omega arith) (omega arith)
      (unhindered true first second) (unhindered false second first) (ended true first second)
      (ended false second first) nothing_refused turned_accepted (((keys_differ, tt), (tt, tt)), tt)
      ((((λ h. keys_differ (sym h)), tt), (tt, tt)), tt) refl refl
