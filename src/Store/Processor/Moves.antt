-- ===== src/Store/Processor/Moves.antt =====
-- What one step of a task of crates/ledgerfs-event-store/src/batch.rs moves.
use mathlib.Core.List.{append-nil}
use ledgerfs.Prelude.{
  ℕ, ◌+◌, ◌-◌, ◌≡◌, ◌≤◌, refl, ap, Bool, true, false, List, [], ◌∷◌, ok, err, arith, Bool-cases,
  inl, inr, count, count-append, length, if◌then◌else◌,
}
use ledgerfs.Core.Events.{EventEnvelope}
use ledgerfs.Store.Platform.{Platform}
use ledgerfs.Store.EventStore.{EventStore}
use ledgerfs.Store.Append.History.{Operation, perform_all}
use ledgerfs.Store.Batch.{BatchConfig, EventBatch, new_batch}
use ledgerfs.Store.Ledger.{events_of, is_ok, accepted, recorded}
use ledgerfs.Store.Processor.Channel.{Channel, IsChannel}
use ledgerfs.Store.Processor.Metrics.{
  Float, BatchMetrics, Flushed, append_batch, count_flush, count_success, count_failure,
}
use ledgerfs.Store.Processor.Worker.{
  Worker, starting, collecting, flushing, counting, Shared, Move, entered, panicked, received,
  disconnected, ticked, notified, appended, counted, on_closed, on_shutdown, after_branch,
  flush_operation,
}
use ledgerfs.Store.Processor.Tally.{
  pending, uncounted, IsBounded, Leaves, on_event-Leaves, on_tick-Leaves, on_closed-Leaves,
}
use ledgerfs.Store.Processor.Replay.{
  refused, count-one, append_batch-perform, append_batch-accepted, events_of-flush_operation,
}

pub count-all : (l : List EventEnvelope) → count (λ e. true) l ≡ length l
count-all [] = refl
count-all (e ∷ l) = omega (arith, count-all l)

module _ {Db Error F C : Type 0} (p : Platform Db Error) (f : Float F) (t : Channel C)
    (k : IsChannel t) (config : BatchConfig) where
  -- The step keeps every event: it is held, waits in the channel, or was recorded or refused.
  pub record Moved (s : Shared Db F C) (w : Worker Error) (operations : List Operation)
      (s' : Shared Db F C) (w' : Worker Error) : Type 0 where
    pub replayed : s'.store ≡ perform_all p s.store operations
    pub conserved :
        (q : EventEnvelope → Bool)
        → count q (pending w) + count q (k.queued s.channel)
          ≡ count q (pending w')
            + count q (k.queued s'.channel)
            + (count q (recorded p s.store operations) + count q (refused p s.store operations))
    pub counts :
        s'.metrics.total_events_processed + uncounted w'
        ≡ s.metrics.total_events_processed
          + uncounted w
          + count (λ e. true) (recorded p s.store operations)
    pub bounded : IsBounded config w'
    pub shorter : length (k.queued s'.channel) ≤ length (k.queued s.channel)
    pub sized : k.capacity s'.channel ≡ k.capacity s.channel

  stays :
      {s : Shared Db F C} {batch : EventBatch} {signalled : Bool} {w' : Worker Error}
      → Leaves config batch.events w'
      → Moved s (collecting batch signalled) [] s w'
  stays (same, none_uncounted, bounded) = record {
    replayed = unfold perform_all in refl;
    conserved = λ q. unfold recorded refused in rw same (omega arith);
    counts = unfold recorded in rw none_uncounted (omega arith);
    bounded = bounded;
    shorter = omega arith;
    sized = refl;
  }

  begins : {s : Shared Db F C} {w' : Worker Error} → Leaves config [] w' → Moved s starting [] s w'
  begins (same, none_uncounted, bounded) = record {
    replayed = unfold perform_all in refl;
    conserved = λ q. unfold recorded refused in rw same (omega arith);
    counts = unfold recorded in rw none_uncounted (omega arith);
    bounded = bounded;
    shorter = omega arith;
    sized = refl;
  }

  count_flush-total :
      (batch_size start_time duration : ℕ) (result : Flushed p) (metrics : BatchMetrics F)
      → (count_flush p f batch_size start_time duration result metrics).total_events_processed
        ≡ metrics.total_events_processed + (if is_ok result then batch_size else 0)
  unfolding count_flush count_success count_failure
  count_flush-total batch_size start_time duration (ok r) metrics = omega arith
  count_flush-total batch_size start_time duration (err e) metrics = omega arith

  recorded-one :
      (self : EventStore Db) (operation : Operation)
      → count (λ e. true) (recorded p self (operation ∷ []))
        ≡ (if accepted p self operation then length (events_of operation) else 0)
  unfolding recorded
  recorded-one self operation = elim (Bool-cases (accepted p self operation)) [
    | inl good ↦ rw good (rw (append-nil (events_of operation)) (count-all (events_of operation)))
    | inr bad ↦ rw bad refl
  ]

  appended-Moved :
      (s : Shared Db F C) (batch : EventBatch) (start_time : ℕ) (then_exit : Bool) (elapsed : ℕ)
      → IsBounded {Error = Error} config (flushing batch start_time then_exit)
      → Moved s
          (flushing batch start_time then_exit)
          (flush_operation config batch.events elapsed ∷ [])
          (record s { store = (append_batch p config s.store batch.events elapsed).1 })
          (counting
            (length batch.events)
            start_time
            (s.now - start_time)
            (append_batch p config s.store batch.events elapsed).0
            then_exit)
  appended-Moved s batch start_time then_exit elapsed within =
      let operation = flush_operation config batch.events elapsed in
      let es = events_of-flush_operation config batch.events elapsed in
      record {
        replayed = unfold perform_all in append_batch-perform p config s.store batch.events elapsed;
        conserved = λ q. omega (arith, count-one p q s.store operation, ap (count q) es);
        counts =
            rw (append_batch-accepted p config s.store batch.events elapsed)
              (rw (recorded-one s.store operation) (rw es (omega arith)));
        bounded = within;
        shorter = omega arith;
        sized = refl;
      }

  after_branch-Leaves :
      (now : ℕ) (then_exit : Bool)
      → Leaves {Error = Error} config [] (after_branch (new_batch now) then_exit)
  after_branch-Leaves now true = (refl, refl, tt)
  after_branch-Leaves now false = (refl, refl, omega arith)

  pub Move-Moved :
      {s s' : Shared Db F C} {w w' : Worker Error} {operations : List Operation}
      → Move p f t config s w operations s' w'
      → IsBounded config w
      → Moved s w operations s' w'
  Move-Moved (entered h) within = begins (refl, refl, omega arith)
  Move-Moved (panicked h) within = begins (refl, refl, tt)
  Move-Moved {s} (received {batch} envelope rest h) within =
      let (same, none_uncounted, bounded) =
        on_event-Leaves Error config s.now batch envelope within in
      let (split, _, sized) = k.recv_takes s.channel rest envelope h in
      record {
        replayed = unfold perform_all in refl;
        conserved = λ q.
            unfold recorded refused in
            rw same
              (omega (arith, ap (count q) split, count-append q batch.events (envelope ∷ [])));
        counts = unfold recorded in rw none_uncounted (omega arith);
        bounded = bounded;
        shorter = omega (arith, ap length split);
        sized = sized;
      }
  Move-Moved {s} (disconnected {batch} h) within =
      stays (on_closed-Leaves Error config s.now batch within)
  Move-Moved {s} (ticked {batch}) within = stays (on_tick-Leaves Error config s.now batch within)
  Move-Moved {s} (notified {batch}) within =
      stays (unfold on_shutdown on_closed in on_closed-Leaves Error config s.now batch within)
  Move-Moved {s} (appended {batch} {start_time} {then_exit} elapsed) within =
      appended-Moved s batch start_time then_exit elapsed within
  Move-Moved {s} (counted {batch_size} {start_time} {duration} {result} {then_exit}) within =
      let (same, none_uncounted, bounded) = after_branch-Leaves s.now then_exit in
      record {
        replayed = unfold perform_all in refl;
        conserved = λ q. unfold recorded refused in rw same (omega arith);
        counts =
            unfold recorded in
            rw none_uncounted (
              rw (count_flush-total batch_size start_time duration result s.metrics) (omega arith));
        bounded = bounded;
        shorter = omega arith;
        sized = refl;
      }
