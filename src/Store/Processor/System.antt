-- ===== src/Store/Processor/System.antt =====
-- `start` and `shutdown` of `BatchProcessor`, its senders and its tasks, interleaved in any order.
use ledgerfs.Prelude.{
  ℕ, ◌+◌, ◌≡◌, Bool, true, false, ◌&&◌, Option, none, some, List, [], ◌∷◌, ◌++◌, map, replicate,
}
use ledgerfs.Core.Events.{EventEnvelope}
use ledgerfs.Store.Platform.{Platform}
use ledgerfs.Store.EventStore.{EventStore}
use ledgerfs.Store.Append.History.{Operation}
use ledgerfs.Store.Batch.{BatchConfig}
use ledgerfs.Store.Processor.Channel.{Channel}
use ledgerfs.Store.Processor.Metrics.{Float, default_metrics}
use ledgerfs.Store.Processor.Worker.{
  Worker, starting, collecting, flushing, counting, stopped, Shared, Move,
}

-- `sent` and `history` are kept for the statements: the events that entered the channel, and the
-- operations on the store, in their order.
pub record System (Db Error F C : Type 0) : Type 0 where
  pub shared : Shared Db F C
  pub workers : List (Worker Error)
  pub sent : List EventEnvelope
  pub history : List Operation

module _ {Error : Type 0} where
  abbrev pub is_stopped : Worker Error → Bool
  is_stopped stopped = true
  is_stopped starting = false
  is_stopped (collecting batch signalled) = false
  is_stopped (flushing batch start_time then_exit) = false
  is_stopped (counting batch_size start_time duration result then_exit) = false

  -- The receiver is dropped with the last task.
  unfoldable pub all_stopped : List (Worker Error) → Bool
  all_stopped [] = true
  all_stopped (w ∷ workers) = is_stopped w && all_stopped workers

  -- `notify_waiters` reaches the tasks that wait, and no others.
  abbrev pub notify : Worker Error → Worker Error
  notify (collecting batch signalled) = collecting batch true
  notify (flushing batch start_time then_exit) = flushing batch start_time then_exit
  notify (counting batch_size start_time duration result then_exit) =
      counting batch_size start_time duration result then_exit
  notify stopped = stopped
  notify starting = starting

module _ {Db Error F C : Type 0} where
  abbrev pub initial : Float F → BatchConfig → EventStore Db → ℕ → C → System Db Error F C
  initial f config store now c = record {
    shared = record { store = store; channel = c; metrics = default_metrics f; now = now };
    workers = replicate config.num_processors starting;
    sent = [];
    history = [];
  }

  -- The creation of the channel may panic.
  unfoldable pub start :
      Float F → Channel C → BatchConfig → EventStore Db → ℕ → Option (System Db Error F C)
  start f t config store now = elim (t.channel config.buffer_size) [
    | none ↦ none
    | some c ↦ some (initial f config store now c)
  ]

  -- A send that completed; without tasks the receiver is gone, and no send does.
  unfoldable pub send : System Db Error F C → EventEnvelope → C → System Db Error F C
  send s envelope after = record s {
    shared = record (s.shared) { channel = after };
    sent = s.sent ++ envelope ∷ [];
  }

  -- The sleep that follows is left to the clock.
  unfoldable pub shutdown : System Db Error F C → System Db Error F C
  shutdown s = record s { workers = map notify s.workers }

  abbrev pub close : Channel C → System Db Error F C → System Db Error F C
  close t s = record s { shared = record (s.shared) { channel = t.drop_senders s.shared.channel } }

  abbrev pub pass : ℕ → System Db Error F C → System Db Error F C
  pass time s = record s { shared = record (s.shared) { now = s.shared.now + time } }

module _ {Db Error F C : Type 0} (p : Platform Db Error) (f : Float F) (t : Channel C)
    (config : BatchConfig) where
  pub data Step (s : System Db Error F C) : System Db Error F C → Type 0 where
    worked :
        (before after : List (Worker Error)) {w w' : Worker Error} {operations : List Operation}
        {shared' : Shared Db F C}
        → s.workers ≡ before ++ w ∷ after
        → Move p f t config s.shared w operations shared' w'
        → Step s (record {
          shared = shared';
          workers = before ++ w' ∷ after;
          sent = s.sent;
          history = s.history ++ operations;
        })
    sends :
        (envelope : EventEnvelope) (after : C)
        → t.send s.shared.channel envelope ≡ some after
        → all_stopped s.workers ≡ false
        → Step s (send s envelope after)
    closes : Step s (close t s)
    passes : (time : ℕ) → Step s (pass time s)
    shuts_down : Step s (shutdown s)

  pub data Reach (store : EventStore Db) (now : ℕ) : System Db Error F C → Type 0 where
    started : {s : System Db Error F C} → start f t config store now ≡ some s → Reach store now s
    later : {s s' : System Db Error F C} → Reach store now s → Step s s' → Reach store now s'
