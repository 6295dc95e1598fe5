-- ===== src/Store/Processor/Worker.antt =====
-- One task of `run_batch_processor` of crates/ledgerfs-event-store/src/batch.rs: its places, and a
-- function for each branch of `select!`. `now` is the time that the branch reads.
use ledgerfs.Prelude.{
  ℕ, ◌*◌, ◌-◌, ◌≡◌, Bool, true, false, not, ◌&&◌, Option, List, [], ◌∷◌, Result, length,
  if◌then◌else◌,
}
use ledgerfs.Core.Events.{EventEnvelope}
use ledgerfs.Store.Platform.{Platform}
use ledgerfs.Store.EventStore.{EventStoreError, EventStore, AppendResult}
use ledgerfs.Store.Append.History.{Operation, several, optimized}
use ledgerfs.Store.Batch.{
  BatchConfig, EventBatch, new_batch, add_to_batch, is_full, is_expired, is_empty,
}
use ledgerfs.Store.Processor.Channel.{Channel, takes, ends}
use ledgerfs.Store.Processor.Metrics.{Float, BatchMetrics, Flushed, append_batch, count_flush}

-- `then_exit` says that the `break` of the branch follows the flush. `signalled` says that
-- `notify_waiters` was called since the task made the `notified` future that it waits for; no other
-- place of a task has one. A `starting` task is spawned and has not made its timer yet; a `stopped` one
-- has returned or panicked.
pub data Worker (Error : Type 0) : Type 0 where
  starting : Worker Error
  collecting : (batch : EventBatch) → (signalled : Bool) → Worker Error
  flushing : (batch : EventBatch) → (start_time : ℕ) → (then_exit : Bool) → Worker Error
  counting :
      (batch_size start_time duration : ℕ)
      → (result : Result (EventStoreError Error) (Option AppendResult)) → (then_exit : Bool)
      → Worker Error
  stopped : Worker Error

-- What the tasks share.
pub record Shared (Db F C : Type 0) : Type 0 where
  pub store : EventStore Db
  pub channel : C
  pub metrics : BatchMetrics F
  pub now : ℕ

-- `max_batch_delay` in nanoseconds: a millisecond is 10^6 of them.
abbrev pub period : BatchConfig → ℕ
period config = config.max_batch_delay * 1000000

module _ {Error : Type 0} where
  -- The loop goes on with the batch, or the task ends.
  abbrev pub after_branch : EventBatch → Bool → Worker Error
  after_branch batch then_exit = if then_exit then stopped else collecting batch false

  -- The start of `flush_batch`.
  abbrev pub begin_flush : ℕ → EventBatch → Bool → Worker Error
  begin_flush now batch then_exit =
      if is_empty batch.events then after_branch batch then_exit else flushing batch now then_exit

  unfoldable pub on_event : BatchConfig → ℕ → EventBatch → EventEnvelope → Worker Error
  on_event config now batch envelope =
      let grown = add_to_batch batch envelope in
      if is_full grown config.max_batch_size
      then begin_flush now grown false
      else after_branch grown false

  unfoldable pub on_closed : ℕ → EventBatch → Worker Error
  on_closed now batch =
      if not (is_empty batch.events) then begin_flush now batch true else after_branch batch true

  unfoldable pub on_tick : BatchConfig → ℕ → EventBatch → Worker Error
  on_tick config now batch =
      if not (is_empty batch.events) && is_expired now batch (period config)
      then begin_flush now batch false
      else after_branch batch false

  unfoldable pub on_shutdown : ℕ → EventBatch → Worker Error
  on_shutdown now batch =
      if not (is_empty batch.events) then begin_flush now batch true else after_branch batch true

abbrev pub flush_operation : BatchConfig → List EventEnvelope → ℕ → Operation
flush_operation config events elapsed =
    if config.use_optimized_append then optimized events elapsed else several events

module _ {Db Error F C : Type 0} (p : Platform Db Error) (f : Float F) (t : Channel C)
    (config : BatchConfig) where
  -- One step of a task, with the operations that it performs on the store. The timer may tick at
  -- any time, and any task that waits may be the one that holds the receiver.
  pub data Move (s : Shared Db F C)
      : Worker Error → List Operation → Shared Db F C → Worker Error → Type 0 where
    entered :
        t.interval_panics (period config) ≡ false
        → Move s starting [] s (collecting (new_batch s.now) false)
    panicked : t.interval_panics (period config) ≡ true → Move s starting [] s stopped
    received :
        {batch : EventBatch} {signalled : Bool} (envelope : EventEnvelope) (rest : C)
        → t.recv s.channel ≡ takes envelope rest
        → Move s
            (collecting batch signalled)
            []
            (record s { channel = rest })
            (on_event config s.now batch envelope)
    disconnected :
        {batch : EventBatch} {signalled : Bool}
        → t.recv s.channel ≡ ends
        → Move s (collecting batch signalled) [] s (on_closed s.now batch)
    ticked :
        {batch : EventBatch} {signalled : Bool}
        → Move s (collecting batch signalled) [] s (on_tick config s.now batch)
    notified : {batch : EventBatch} → Move s (collecting batch true) [] s (on_shutdown s.now batch)
    appended :
        {batch : EventBatch} {start_time : ℕ} {then_exit : Bool} (elapsed : ℕ)
        → Move s
            (flushing batch start_time then_exit)
            (flush_operation config batch.events elapsed ∷ [])
            (record s { store = (append_batch p config s.store batch.events elapsed).1 })
            (counting
              (length batch.events)
              start_time
              (s.now - start_time)
              (append_batch p config s.store batch.events elapsed).0
              then_exit)
    counted :
        {batch_size start_time duration : ℕ} {result : Flushed p} {then_exit : Bool}
        → Move s
            (counting batch_size start_time duration result then_exit)
            []
            (record s { metrics = count_flush p f batch_size start_time duration result s.metrics })
            (after_branch (new_batch s.now) then_exit)
