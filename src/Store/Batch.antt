-- ===== src/Store/Batch.antt =====
-- The configurations, the batches and the synchronous writer of
-- crates/ledgerfs-event-store/src/batch.rs. Durations are in milliseconds.
pub mod Laws
mod Tests
use ledgerfs.Prelude.{
  ℕ, ◌-◌, Bool, true, false, List, [], ◌∷◌, ◌++◌, Result, ok, err, ◌>>=◌, length, leb,
  if◌then◌else◌,
}
use ledgerfs.Core.Events.{EventEnvelope}
use ledgerfs.Store.Platform.{Platform}
use ledgerfs.Store.EventStore.{EventStore, Outcome}
use ledgerfs.Store.Append.{append_events}

pub record BatchConfig : Type 0 where
  pub max_batch_size : ℕ
  pub max_batch_delay : ℕ
  pub buffer_size : ℕ
  pub num_processors : ℕ
  pub use_optimized_append : Bool
  pub target_throughput : ℕ
  pub enforce_append_only : Bool

abbrev pub default_batch_config : BatchConfig
default_batch_config = record {
  max_batch_size = 1000;
  max_batch_delay = 10;
  buffer_size = 10000;
  num_processors = 4;
  use_optimized_append = true;
  target_throughput = 50000;
  enforce_append_only = true;
}

abbrev pub high_throughput_batch : BatchConfig
high_throughput_batch = record {
  max_batch_size = 2000;
  max_batch_delay = 5;
  buffer_size = 50000;
  num_processors = 8;
  use_optimized_append = true;
  target_throughput = 75000;
  enforce_append_only = true;
}

abbrev pub low_latency : BatchConfig
low_latency = record {
  max_batch_size = 100;
  max_batch_delay = 1;
  buffer_size = 5000;
  num_processors = 2;
  use_optimized_append = true;
  target_throughput = 10000;
  enforce_append_only = true;
}

-- A batch, with the time of its creation; the time of day is an argument.
pub record EventBatch : Type 0 where
  pub events : List EventEnvelope
  pub created_at : ℕ

abbrev pub new_batch : ℕ → EventBatch
new_batch now = record { events = []; created_at = now }

abbrev pub add_to_batch : EventBatch → EventEnvelope → EventBatch
add_to_batch self event = record self { events = self.events ++ event ∷ [] }

abbrev pub is_full : EventBatch → ℕ → Bool
is_full self max_size = leb max_size (length self.events)

abbrev pub is_expired : ℕ → EventBatch → ℕ → Bool
is_expired now self max_delay = leb max_delay (now - self.created_at)

abbrev pub is_empty : List EventEnvelope → Bool
is_empty [] = true
is_empty (event ∷ events) = false

-- The store that the writer shares is passed on with it.
pub record SyncBatchWriter (Db : Type 0) : Type 0 where
  pub event_store : EventStore Db
  pub pending_events : List EventEnvelope
  pub max_batch_size : ℕ

abbrev pub new_writer : {Db : Type 0} → EventStore Db → ℕ → SyncBatchWriter Db
new_writer event_store max_batch_size = record {
  event_store = event_store;
  pending_events = [];
  max_batch_size = max_batch_size;
}

abbrev pub add_event : {Db : Type 0} → SyncBatchWriter Db → EventEnvelope → SyncBatchWriter Db
add_event self event = record self { pending_events = self.pending_events ++ event ∷ [] }

abbrev pub pending_count : {Db : Type 0} → SyncBatchWriter Db → ℕ
pending_count self = length self.pending_events

module _ {Db Error : Type 0} (p : Platform Db Error) where
  -- The events are drained before they are appended.
  unfoldable pub flush : SyncBatchWriter Db → Outcome p (Unit {0}) × SyncBatchWriter Db
  flush self =
      if is_empty self.pending_events
      then (ok tt, self)
      else (let (r, event_store) = append_events p self.event_store self.pending_events in
          (r, record self { event_store = event_store; pending_events = [] }))

  unfoldable pub flush_if_full : SyncBatchWriter Db → Outcome p Bool × SyncBatchWriter Db
  flush_if_full self =
      let (r, flushed) = flush self in
      if leb self.max_batch_size (length self.pending_events)
      then (r >>= λ _. ok true, flushed)
      else (ok false, self)
