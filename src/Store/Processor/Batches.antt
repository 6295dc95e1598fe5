-- ===== src/Store/Processor/Batches.antt =====
-- How the metrics of crates/ledgerfs-event-store/src/batch.rs count the batches.
use mathlib.Core.Path.{subst}
use ledgerfs.Prelude.{
  ℕ, ◌+◌, ◌≡◌, refl, ap, Bool, List, [], ◌∷◌, ◌++◌, ok, err, arith, sum_of, sum_of-append,
  sum_of-map, sum_of-replicate, if◌then◌else◌,
}
use ledgerfs.Core.Events.{EventEnvelope}
use ledgerfs.Store.Platform.{Platform}
use ledgerfs.Store.EventStore.{EventStore}
use ledgerfs.Store.Append.History.{Operation, perform, perform_all}
use ledgerfs.Store.Batch.{BatchConfig, EventBatch, new_batch}
use ledgerfs.Store.Ledger.{is_ok, accepted}
use ledgerfs.Store.Processor.Channel.{Channel, IsChannel}
use ledgerfs.Store.Processor.Metrics.{
  Float, BatchMetrics, Flushed, count_flush, count_success, count_failure, default_metrics,
}
use ledgerfs.Store.Processor.Worker.{
  Worker, starting, collecting, flushing, counting, stopped, Shared, Move, entered, panicked,
  received, disconnected, ticked, notified, appended, counted, on_event, on_closed, on_tick,
  on_shutdown, after_branch,
}
use ledgerfs.Store.Processor.System.{
  System, notify, send, shutdown, Step, worked, sends, closes, passes, shuts_down, Reach, started,
  later,
}
use ledgerfs.Store.Processor.Replay.{append_batch-accepted}
use ledgerfs.Store.Processor.Accounts.{Accounts, Reach-Accounts, start-initial}

-- What the operations weigh, one that returns `Ok` the weight of `true`.
module _ {Db Error : Type 0} (p : Platform Db Error) (weight : Bool → ℕ) where
  unfoldable pub weigh : EventStore Db → List Operation → ℕ
  weigh self [] = 0
  weigh self (operation ∷ operations) =
      weight (accepted p self operation) + weigh (perform p self operation) operations

  weigh-append :
      (self : EventStore Db) (a b : List Operation)
      → weigh self (a ++ b) ≡ weigh self a + weigh (perform_all p self a) b
  unfolding weigh perform_all
  weigh-append self [] b = omega arith
  weigh-append self (operation ∷ a) b = omega (arith, weigh-append (perform p self operation) a b)

module _ {Error : Type 0} (weight : Bool → ℕ) where
  -- The append that the task has done and not yet counted.
  abbrev pub in_flight : Worker Error → ℕ
  in_flight (collecting batch signalled) = 0
  in_flight (flushing batch start_time then_exit) = 0
  in_flight (counting batch_size start_time duration result then_exit) = weight (is_ok result)
  in_flight stopped = 0
  in_flight starting = 0

  notify-in_flight : (w : Worker Error) → in_flight (notify w) ≡ in_flight w
  notify-in_flight (collecting batch signalled) = refl
  notify-in_flight (flushing batch start_time then_exit) = refl
  notify-in_flight (counting batch_size start_time duration result then_exit) = refl
  notify-in_flight stopped = refl
  notify-in_flight starting = refl

module _ (Error : Type 0) (weight : Bool → ℕ) where
  on_event-in_flight :
      (config : BatchConfig) (now : ℕ) (batch : EventBatch) (e : EventEnvelope)
      → in_flight {Error = Error} weight (on_event config now batch e) ≡ 0
  unfolding on_event
  on_event-in_flight config now batch e = ground arith

  on_closed-in_flight :
      (now : ℕ) (batch : EventBatch) → in_flight {Error = Error} weight (on_closed now batch) ≡ 0
  unfolding on_closed
  on_closed-in_flight now batch = ground arith

  on_tick-in_flight :
      (config : BatchConfig) (now : ℕ) (batch : EventBatch)
      → in_flight {Error = Error} weight (on_tick config now batch) ≡ 0
  unfolding on_tick
  on_tick-in_flight config now batch = ground arith

  on_shutdown-in_flight :
      (now : ℕ) (batch : EventBatch) → in_flight {Error = Error} weight (on_shutdown now batch) ≡ 0
  unfolding on_shutdown
  on_shutdown-in_flight now batch = ground arith

  after_branch-in_flight :
      (batch : EventBatch) (then_exit : Bool)
      → in_flight {Error = Error} weight (after_branch batch then_exit) ≡ 0
  after_branch-in_flight batch then_exit = ground arith

module _ {Db Error F C : Type 0} (p : Platform Db Error) (f : Float F) (t : Channel C)
    (k : IsChannel t) (config : BatchConfig) (weight : Bool → ℕ) (metric : BatchMetrics F → ℕ) where
  -- The metric grows by the weight of each result that is counted.
  abbrev Adds : Type 0
  Adds =
      (batch_size start_time duration : ℕ) (result : Flushed p) (metrics : BatchMetrics F)
      → metric (count_flush p f batch_size start_time duration result metrics)
        ≡ metric metrics + weight (is_ok result)

  -- What is counted and what is in flight weighs as much as the operations.
  abbrev Weighs : EventStore Db → System Db Error F C → Type 0
  Weighs store s =
      metric s.shared.metrics + sum_of (in_flight weight) s.workers ≡ weigh p weight store s.history

  Move-weight :
      {s s' : Shared Db F C} {w w' : Worker Error} {operations : List Operation}
      → Adds
      → Move p f t config s w operations s' w'
      → metric s'.metrics + in_flight weight w'
        ≡ metric s.metrics + in_flight weight w + weigh p weight s.store operations
  unfolding weigh
  Move-weight adds (entered h) = omega arith
  Move-weight adds (panicked h) = omega arith
  Move-weight {s} adds (received {batch} envelope rest h) =
      omega (arith, on_event-in_flight Error weight config s.now batch envelope)
  Move-weight {s} adds (disconnected {batch} h) =
      omega (arith, on_closed-in_flight Error weight s.now batch)
  Move-weight {s} adds (ticked {batch}) =
      omega (arith, on_tick-in_flight Error weight config s.now batch)
  Move-weight {s} adds (notified {batch}) =
      omega (arith, on_shutdown-in_flight Error weight s.now batch)
  Move-weight {s} adds (appended {batch} elapsed) =
      omega (arith, ap weight (append_batch-accepted p config s.store batch.events elapsed))
  Move-weight {s} adds (counted {batch_size} {start_time} {duration} {result} {then_exit}) = omega (
    arith,
    adds batch_size start_time duration result s.metrics,
    after_branch-in_flight Error weight (new_batch s.now) then_exit,
  )

  Step-Weighs :
      (store : EventStore Db) {s s' : System Db Error F C}
      → Adds
      → Accounts p f t k config store s
      → Step p f t config s s'
      → Weighs store s
      → Weighs store s'
  Step-Weighs store {s} adds a (worked before after {w} {w'} {operations} at_work move) h =
      let flight : Worker Error → ℕ = in_flight weight in
      omega (
        arith,
        h,
        Move-weight adds move,
        weigh-append p weight store s.history operations,
        ap (sum_of flight) at_work,
        ap (λ st. weigh p weight st operations) a.replayed,
        sum_of-append flight before (w ∷ after),
        sum_of-append flight before (w' ∷ after),
      )
  Step-Weighs store adds a (sends envelope after went running) h = unfold send in h
  Step-Weighs store adds a closes h = h
  Step-Weighs store adds a (passes time) h = h
  Step-Weighs store {s} adds a shuts_down h =
      unfold shutdown in
      rw (sum_of-map (in_flight weight) notify (notify-in_flight weight) s.workers) h

  pub Reach-weight :
      {store : EventStore Db} {now : ℕ} {s : System Db Error F C}
      → Adds
      → metric (default_metrics f) ≡ 0
      → Reach p f t config store now s
      → Weighs store s
  Reach-weight {store} {now} {s} adds none_yet (started h) =
      let (c, made, same) = start-initial p f t k config store now s h in
      subst (Weighs store) same (
        unfold weigh in
        omega (
          arith,
          none_yet,
          sum_of-replicate (in_flight {Error = Error} weight) config.num_processors starting refl,
        ))
  Reach-weight {store} adds none_yet (later r step) =
      Step-Weighs store adds (Reach-Accounts p f t k config r) step (Reach-weight adds none_yet r)

-- The weights that count the operations that return `Ok`, and those that fail.
abbrev pub successes : Bool → ℕ
successes b = if b then 1 else 0

abbrev pub failures : Bool → ℕ
failures b = if b then 0 else 1

module _ {Db Error F C : Type 0} (p : Platform Db Error) (f : Float F) (t : Channel C)
    (k : IsChannel t) (config : BatchConfig) where
  batches-Adds :
      (batch_size start_time duration : ℕ) (result : Flushed p) (metrics : BatchMetrics F)
      → (count_flush p f batch_size start_time duration result metrics).total_batches_processed
        ≡ metrics.total_batches_processed + successes (is_ok result)
  unfolding count_flush count_success count_failure
  batches-Adds batch_size start_time duration (ok r) metrics = refl
  batches-Adds batch_size start_time duration (err e) metrics = omega arith

  errors-Adds :
      (batch_size start_time duration : ℕ) (result : Flushed p) (metrics : BatchMetrics F)
      → (count_flush p f batch_size start_time duration result metrics).processing_errors
        ≡ metrics.processing_errors + failures (is_ok result)
  unfolding count_flush count_success count_failure
  errors-Adds batch_size start_time duration (ok r) metrics = omega arith
  errors-Adds batch_size start_time duration (err e) metrics = refl

  -- In every order of the steps, each append to the store is counted once: the batches and the errors of
  -- the metrics, with the appends that a task has done and not yet counted, are the appends that
  -- returned `Ok` and those that failed.
  pub Reach-batches :
      {store : EventStore Db} {now : ℕ} {s : System Db Error F C}
      → Reach p f t config store now s
      → (s.shared.metrics.total_batches_processed + sum_of (in_flight successes) s.workers
          ≡ weigh p successes store s.history)
        × (s.shared.metrics.processing_errors + sum_of (in_flight failures) s.workers
            ≡ weigh p failures store s.history)
  Reach-batches r = (
    Reach-weight p f t k config successes (λ m. m.total_batches_processed) batches-Adds refl r,
    Reach-weight p f t k config failures (λ m. m.processing_errors) errors-Adds refl r,
  )
