-- ===== src/Store/Processor/Tally.antt =====
-- What the tasks of crates/ledgerfs-event-store/src/batch.rs hold, and what each branch of a task
-- does to it.
use ledgerfs.Prelude.{
  ℕ, suc, ◌-◌, ◌≡◌, ◌≤◌, List, [], ◌∷◌, ◌++◌, arith, length, length-append, if◌then◌else◌,
}
use ledgerfs.Core.Events.{EventEnvelope}
use ledgerfs.Store.Batch.{BatchConfig, EventBatch}
use ledgerfs.Store.Ledger.{is_ok}
use ledgerfs.Store.Processor.Worker.{
  Worker, starting, collecting, flushing, counting, stopped, on_event, on_closed, on_tick,
}

-- What a flush takes at most: `max_batch_size`, or one where that is zero.
abbrev pub limit : BatchConfig → ℕ
limit config = suc (config.max_batch_size - 1)

module _ {Error : Type 0} where
  -- The events of a task that are not yet handed to the store.
  abbrev pub pending : Worker Error → List EventEnvelope
  pending (collecting batch signalled) = batch.events
  pending (flushing batch start_time then_exit) = batch.events
  pending (counting batch_size start_time duration result then_exit) = []
  pending stopped = []
  pending starting = []

  -- The events that the task has appended and not yet counted.
  abbrev pub uncounted : Worker Error → ℕ
  uncounted (collecting batch signalled) = 0
  uncounted (flushing batch start_time then_exit) = 0
  uncounted (counting batch_size start_time duration result then_exit) =
      if is_ok result then batch_size else 0
  uncounted stopped = 0
  uncounted starting = 0

  abbrev pub IsBounded : BatchConfig → Worker Error → Type 0
  IsBounded config (collecting batch signalled) = suc (length batch.events) ≤ limit config
  IsBounded config (flushing batch start_time then_exit) =
      (1 ≤ length batch.events) × (length batch.events ≤ limit config)
  IsBounded config (counting batch_size start_time duration result then_exit) =
      (1 ≤ batch_size) × (batch_size ≤ limit config)
  IsBounded config stopped = Unit
  IsBounded config starting = Unit

  -- What a branch leaves: the events that the task then holds, within its bounds.
  abbrev pub Leaves : BatchConfig → List EventEnvelope → Worker Error → Type 0
  Leaves config es w = (pending w ≡ es) × (uncounted w ≡ 0) × IsBounded config w

module _ (Error : Type 0) where
  pub on_event-Leaves :
      (config : BatchConfig) (now : ℕ) (batch : EventBatch) (e : EventEnvelope)
      → suc (length batch.events) ≤ limit config
      → Leaves {Error = Error} config (batch.events ++ e ∷ []) (on_event config now batch e)
  unfolding on_event
  on_event-Leaves config now batch e h = ground (arith, length-append batch.events (e ∷ []))

  pub on_tick-Leaves :
      (config : BatchConfig) (now : ℕ) (batch : EventBatch)
      → suc (length batch.events) ≤ limit config
      → Leaves {Error = Error} config batch.events (on_tick config now batch)
  unfolding on_tick
  on_tick-Leaves config now batch h = ground arith

  pub on_closed-Leaves :
      (config : BatchConfig) (now : ℕ) (batch : EventBatch)
      → suc (length batch.events) ≤ limit config
      → Leaves {Error = Error} config batch.events (on_closed now batch)
  unfolding on_closed
  on_closed-Leaves config now batch h = ground arith
