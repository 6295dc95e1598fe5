-- ===== src/Store/Processor/Accounts.antt =====
-- What becomes of the events that are sent to a `BatchProcessor` of
-- crates/ledgerfs-event-store/src/batch.rs, in every order of the steps of its tasks.
use mathlib.Core.Path.{subst}
use ledgerfs.Prelude.{
  Option-cases, ◌∙◌, inl, inr, ℕ, ◌+◌, ◌≡◌, ◌≤◌, refl, sym, ap, Bool, true, some, List, [], ◌∷◌,
  ◌++◌, arith, count, count-append, sum_of, sum_of-append, sum_of-map, sum_of-replicate, All,
  All-append, All-split, All-map, All-replicate, length,
}
use ledgerfs.Core.Events.{EventEnvelope}
use ledgerfs.Store.Platform.{Platform}
use ledgerfs.Store.EventStore.{EventStore}
use ledgerfs.Store.Append.History.{Operation, perform_all}
use ledgerfs.Store.Batch.{BatchConfig}
use ledgerfs.Store.Ledger.{recorded}
use ledgerfs.Store.Processor.Channel.{Channel, IsChannel}
use ledgerfs.Store.Processor.Metrics.{Float}
use ledgerfs.Store.Processor.Worker.{
  Worker, starting, collecting, flushing, counting, stopped, Shared, Move,
}
use ledgerfs.Store.Processor.System.{
  System, notify, initial, start, send, shutdown, Step, worked, sends, closes, passes, shuts_down,
  Reach, started, later,
}
use ledgerfs.Store.Processor.Tally.{pending, uncounted, IsBounded}
use ledgerfs.Store.Processor.Replay.{refused, perform_all-append, count-recorded, count-refused}
use ledgerfs.Store.Processor.Moves.{Move-Moved}

module _ {Error : Type 0} where
  -- How many of the events that pass the test the tasks hold, and how many events they have appended
  -- and not counted.
  abbrev pub held_by : (EventEnvelope → Bool) → List (Worker Error) → ℕ
  held_by q workers = sum_of (λ w. count q (pending w)) workers

  abbrev pub uncounted_by : List (Worker Error) → ℕ
  uncounted_by workers = sum_of uncounted workers

  notify-pending : (w : Worker Error) → pending (notify w) ≡ pending w
  notify-pending (collecting batch signalled) = refl
  notify-pending (flushing batch start_time then_exit) = refl
  notify-pending (counting batch_size start_time duration result then_exit) = refl
  notify-pending stopped = refl
  notify-pending starting = refl

  notify-uncounted : (w : Worker Error) → uncounted (notify w) ≡ uncounted w
  notify-uncounted (collecting batch signalled) = refl
  notify-uncounted (flushing batch start_time then_exit) = refl
  notify-uncounted (counting batch_size start_time duration result then_exit) = refl
  notify-uncounted stopped = refl
  notify-uncounted starting = refl

  notify-IsBounded :
      (config : BatchConfig) (w : Worker Error) → IsBounded config w → IsBounded config (notify w)
  notify-IsBounded config (collecting batch signalled) h = h
  notify-IsBounded config (flushing batch start_time then_exit) h = h
  notify-IsBounded config (counting batch_size start_time duration result then_exit) h = h
  notify-IsBounded config stopped h = h
  notify-IsBounded config starting h = h

module _ {Db Error F C : Type 0} (p : Platform Db Error) (f : Float F) (t : Channel C)
    (k : IsChannel t) (config : BatchConfig) where
  pub record Accounts (store : EventStore Db) (s : System Db Error F C) : Type 0 where
    pub replayed : s.shared.store ≡ perform_all p store s.history
    pub conserved :
        (q : EventEnvelope → Bool)
        → count q s.sent
          ≡ count q (recorded p store s.history)
            + count q (refused p store s.history)
            + (held_by q s.workers + count q (k.queued s.shared.channel))
    pub counts :
        s.shared.metrics.total_events_processed + uncounted_by s.workers
        ≡ count (λ e. true) (recorded p store s.history)
    pub bounded : All (IsBounded config) s.workers
    pub roomy : length (k.queued s.shared.channel) ≤ config.buffer_size
    pub sized : k.capacity s.shared.channel ≡ config.buffer_size

  pub start-initial :
      (store : EventStore Db) (now : ℕ) (s : System Db Error F C)
      → start f t config store now ≡ some s
      → (c : C) × (t.channel config.buffer_size ≡ some c) × (initial f config store now c ≡ s)
  unfolding start
  start-initial store now s h = elim (Option-cases (t.channel config.buffer_size)) [
    | inl refused_it ↦ absurd (cc (rw (refused_it, start) at h))
    | inr (c, made) ↦ let same = rw (made, start) at h in (c, made, cc same)
  ]

  initial-Accounts :
      (store : EventStore Db) (now : ℕ) (c : C)
      → t.channel config.buffer_size ≡ some c
      → Accounts store (initial f config store now c)
  initial-Accounts store now c made =
      let w : Worker Error = starting in
      let (empty, _, sized) = k.channel_new config.buffer_size c made in
      record {
        replayed = unfold perform_all in refl;
        conserved = λ q.
            unfold recorded refused in
            omega (
              arith,
              ap (count q) empty,
              sum_of-replicate (λ w. count q (pending w)) config.num_processors w refl,
            );
        counts =
            unfold recorded in
            omega (arith, sum_of-replicate uncounted config.num_processors w refl);
        bounded = All-replicate (IsBounded config) config.num_processors w tt;
        roomy = omega (arith, ap length empty);
        sized = sized;
      }

  started-Accounts :
      (store : EventStore Db) (now : ℕ) (s : System Db Error F C)
      → start f t config store now ≡ some s
      → Accounts store s
  started-Accounts store now s h =
      let (c, made, same) = start-initial store now s h in
      subst (Accounts store) same (initial-Accounts store now c made)

  worked-Accounts :
      (store : EventStore Db) (s : System Db Error F C) (before after : List (Worker Error))
      {w w' : Worker Error} {operations : List Operation} {shared' : Shared Db F C}
      → Accounts store s
      → s.workers ≡ before ++ w ∷ after
      → Move p f t config s.shared w operations shared' w'
      → Accounts store (record {
        shared = shared';
        workers = before ++ w' ∷ after;
        sent = s.sent;
        history = s.history ++ operations;
      })
  worked-Accounts store s before after {w} {w'} {operations} {shared'} a at_work move =
      let split = rw (at_work) at a.bounded in
      let (left, here) = All-split (IsBounded config) before (w ∷ after) split in
      let m = Move-Moved p f t k config move here.0 in
      record {
        replayed =
            rw (m.replayed)
              (rw (a.replayed) (sym (perform_all-append p store s.history operations)));
        conserved = λ q.
            let h = λ (w : Worker Error). count q (pending w) in
            omega (
              arith,
              a.conserved q,
              m.conserved q,
              count-recorded p q store s.history operations,
              count-refused p q store s.history operations,
              ap (held_by q) at_work,
              ap (λ st. count q (recorded p st operations)) a.replayed,
              ap (λ st. count q (refused p st operations)) a.replayed,
              sum_of-append h before (w ∷ after),
              sum_of-append h before (w' ∷ after),
            );
        counts = omega (
          arith,
          a.counts,
          m.counts,
          count-recorded p (λ e. true) store s.history operations,
          ap uncounted_by at_work,
          ap (λ st. count (λ e. true) (recorded p st operations)) a.replayed,
          sum_of-append uncounted before (w ∷ after),
          sum_of-append uncounted before (w' ∷ after),
        );
        bounded = All-append (IsBounded config) before (w' ∷ after) left (m.bounded, here.1);
        roomy = omega (arith, a.roomy, m.shorter);
        sized = m.sized ∙ a.sized;
      }

  Step-Accounts :
      (store : EventStore Db) {s s' : System Db Error F C}
      → Accounts store s
      → Step p f t config s s'
      → Accounts store s'
  Step-Accounts store {s} a (worked before after at_work move) =
      worked-Accounts store s before after a at_work move
  Step-Accounts store {s} a (sends envelope after went running) =
      let (queue, _, _, same, room) = k.send_queues s.shared.channel after envelope went in
      unfold send in
      record {
        replayed = a.replayed;
        conserved = λ q. omega (
          arith,
          a.conserved q,
          ap (count q) queue,
          count-append q s.sent (envelope ∷ []),
          count-append q (k.queued s.shared.channel) (envelope ∷ []),
        );
        counts = a.counts;
        bounded = a.bounded;
        roomy = omega (arith, room, a.sized);
        sized = same ∙ a.sized;
      }
  Step-Accounts store {s} a closes =
      let (queue, _, same) = k.drop_closes s.shared.channel in
      record {
        replayed = a.replayed;
        conserved = λ q. omega (arith, a.conserved q, ap (count q) queue);
        counts = a.counts;
        bounded = a.bounded;
        roomy = omega (arith, a.roomy, ap length queue);
        sized = same ∙ a.sized;
      }
  Step-Accounts store a (passes time) = record {
    replayed = a.replayed;
    conserved = a.conserved;
    counts = a.counts;
    bounded = a.bounded;
    roomy = a.roomy;
    sized = a.sized;
  }
  Step-Accounts store {s} a shuts_down =
      unfold shutdown in
      record {
        replayed = a.replayed;
        conserved = λ q.
            rw
              (sum_of-map (λ w. count q (pending w)) notify (λ w. ap (count q) (notify-pending w))
                s.workers)
              (a.conserved q);
        counts = rw (sum_of-map uncounted notify notify-uncounted s.workers) (a.counts);
        bounded = All-map (IsBounded config) notify (notify-IsBounded config) s.workers a.bounded;
        roomy = a.roomy;
        sized = a.sized;
      }

  -- In every order of the steps of the tasks, the senders, the clock and shutdown: the store is the
  -- one of the history of appends; every event sent was recorded or refused, or is held by a task, or
  -- waits in the channel; the metrics and the appends not yet counted add up to the recorded events; no
  -- batch is above its limit; and the channel is within its capacity, which is `buffer_size`.
  pub Reach-Accounts :
      {store : EventStore Db} {now : ℕ} {s : System Db Error F C}
      → Reach p f t config store now s
      → Accounts store s
  Reach-Accounts {store} {now} {s} (started h) = started-Accounts store now s h
  Reach-Accounts {store} (later r st) = Step-Accounts store (Reach-Accounts r) st
