-- ===== src/Store/Processor/Settled.antt =====
-- A `BatchProcessor` of crates/ledgerfs-event-store/src/batch.rs that is not shut down: its tasks
-- end only after the channel is closed and empty.
use mathlib.Core.Path.{subst}
use ledgerfs.Prelude.{
  ◌∙◌, ℕ, ◌+◌, ◌≡◌, ◌<◌, ◌⊎◌, refl, ap, Bool, true, false, not, List, [], ◌∷◌, ◌++◌, arith, inl,
  inr, All, All-append, All-split, All-replicate, count, length,
}
use ledgerfs.Core.Events.{EventEnvelope}
use ledgerfs.Store.Platform.{Platform}
use ledgerfs.Store.EventStore.{EventStore}
use ledgerfs.Store.Append.History.{Operation}
use ledgerfs.Store.Batch.{BatchConfig, EventBatch}
use ledgerfs.Store.Ledger.{recorded}
use ledgerfs.Store.Processor.Channel.{Channel, IsChannel}
use ledgerfs.Store.Processor.Metrics.{Float}
use ledgerfs.Store.Processor.Worker.{
  Worker, starting, collecting, flushing, counting, stopped, Shared, Move, entered, panicked,
  received, disconnected, ticked, notified, appended, counted, on_event, on_tick, period,
}
use ledgerfs.Store.Processor.System.{
  System, all_stopped, send, Step, worked, sends, closes, passes, shuts_down, Reach, started, later,
}
use ledgerfs.Store.Processor.Replay.{refused}
use ledgerfs.Store.Processor.Moves.{count-all}
use ledgerfs.Store.Processor.Accounts.{Reach-Accounts, held_by, uncounted_by, start-initial}

module _ {Error : Type 0} where
  -- The task is not about to end.
  abbrev pub stays : Worker Error → Bool
  stays (collecting batch signalled) = not signalled
  stays (flushing batch start_time then_exit) = not then_exit
  stays (counting batch_size start_time duration result then_exit) = not then_exit
  stays stopped = false
  stays starting = true

  all_stopped-stays :
      (before after : List (Worker Error)) (w : Worker Error)
      → stays w ≡ true
      → all_stopped (before ++ w ∷ after) ≡ false
  unfolding all_stopped
  all_stopped-stays [] after (collecting batch signalled) h = refl
  all_stopped-stays [] after (flushing batch start_time then_exit) h = refl
  all_stopped-stays [] after (counting batch_size start_time duration result then_exit) h = refl
  all_stopped-stays [] after starting h = refl
  all_stopped-stays [] after stopped h = absurd (cc h)
  all_stopped-stays (x ∷ before) after w h = ground (arith, all_stopped-stays before after w h)

  all_stopped-held_by :
      (q : EventEnvelope → Bool) (workers : List (Worker Error))
      → all_stopped workers ≡ true
      → held_by q workers ≡ 0
  unfolding all_stopped
  all_stopped-held_by q [] h = refl
  all_stopped-held_by q (stopped ∷ workers) h = omega (arith, all_stopped-held_by q workers h)
  all_stopped-held_by q (starting ∷ workers) h = absurd (cc h)
  all_stopped-held_by q (collecting batch signalled ∷ workers) h = absurd (cc h)
  all_stopped-held_by q (flushing batch start_time then_exit ∷ workers) h = absurd (cc h)
  all_stopped-held_by q (counting batch_size start_time duration result then_exit ∷ workers) h =
      absurd (cc h)

  all_stopped-uncounted_by :
      (workers : List (Worker Error)) → all_stopped workers ≡ true → uncounted_by workers ≡ 0
  unfolding all_stopped
  all_stopped-uncounted_by [] h = refl
  all_stopped-uncounted_by (stopped ∷ workers) h = omega (arith, all_stopped-uncounted_by workers h)
  all_stopped-uncounted_by (starting ∷ workers) h = absurd (cc h)
  all_stopped-uncounted_by (collecting batch signalled ∷ workers) h = absurd (cc h)
  all_stopped-uncounted_by (flushing batch start_time then_exit ∷ workers) h = absurd (cc h)
  all_stopped-uncounted_by (counting batch_size start_time duration result then_exit ∷ workers) h =
      absurd (cc h)

module _ (Error : Type 0) where
  on_event-stays :
      (config : BatchConfig) (now : ℕ) (batch : EventBatch) (e : EventEnvelope)
      → stays (on_event {Error = Error} config now batch e) ≡ true
  unfolding on_event
  on_event-stays config now batch e = ground arith

  on_tick-stays :
      (config : BatchConfig) (now : ℕ) (batch : EventBatch)
      → stays (on_tick {Error = Error} config now batch) ≡ true
  unfolding on_tick
  on_tick-stays config now batch = ground arith

module _ {Db Error F C : Type 0} (p : Platform Db Error) (f : Float F) (t : Channel C)
    (k : IsChannel t) (config : BatchConfig) where
  -- The tasks stay while events may come.
  abbrev Quiet : Shared Db F C → List (Worker Error) → Type 0
  Quiet s workers =
      ((k.closed s.channel ≡ true) × (k.queued s.channel ≡ []))
      ⊎ (All (λ w. stays w ≡ true) workers
          × ((k.queued s.channel ≡ []) ⊎ (all_stopped workers ≡ false)))

  Move-closed :
      {s s' : Shared Db F C} {w w' : Worker Error} {operations : List Operation}
      → Move p f t config s w operations s' w'
      → (k.closed s.channel ≡ true) × (k.queued s.channel ≡ [])
      → (k.closed s'.channel ≡ true) × (k.queued s'.channel ≡ [])
  Move-closed {s} (received envelope rest h) c =
      absurd (cc ((k.recv_takes s.channel rest envelope h).0, c.1))
  Move-closed (entered h) c = c
  Move-closed (panicked h) c = c
  Move-closed (disconnected h) c = c
  Move-closed ticked c = c
  Move-closed notified c = c
  Move-closed (appended elapsed) c = c
  Move-closed counted c = c

  -- With a delay above zero the timer is made.
  timer_made : 0 < config.max_batch_delay → t.interval_panics (period config) ≡ false
  timer_made timed = k.interval_positive (period config) (omega arith)

  Move-stays :
      {s s' : Shared Db F C} {w w' : Worker Error} {operations : List Operation}
      → 0 < config.max_batch_delay
      → Move p f t config s w operations s' w'
      → stays w ≡ true
      → ((k.closed s'.channel ≡ true) × (k.queued s'.channel ≡ [])) ⊎ (stays w' ≡ true)
  Move-stays timed (entered h) staying = inr refl
  Move-stays timed (panicked h) staying = absurd (cc (h, timer_made timed))
  Move-stays {s} timed (received {batch} envelope rest h) staying =
      inr (on_event-stays Error config s.now batch envelope)
  Move-stays {s} timed (disconnected h) staying =
      let (empty, closed) = k.recv_ends s.channel h in inl (closed, empty)
  Move-stays {s} timed (ticked {batch}) staying = inr (on_tick-stays Error config s.now batch)
  Move-stays timed notified staying = absurd (cc staying)
  Move-stays timed (appended elapsed) staying = inr staying
  Move-stays timed (counted {then_exit}) staying = inr (ground arith)

  worked-Quiet :
      {s : Shared Db F C} (before after : List (Worker Error)) {w w' : Worker Error}
      {operations : List Operation} {s' : Shared Db F C}
      → 0 < config.max_batch_delay
      → Quiet s (before ++ w ∷ after)
      → Move p f t config s w operations s' w'
      → Quiet s' (before ++ w' ∷ after)
  worked-Quiet before after timed (inl c) move = inl (Move-closed move c)
  worked-Quiet before after {w} {w'} timed (inr (staying, _)) move =
      let (left, here) = All-split (λ w. stays w ≡ true) before (w ∷ after) staying in
      elim (Move-stays timed move here.0) [
        | inl c ↦ inl c
        | inr still ↦ inr (
          All-append (λ w. stays w ≡ true) before (w' ∷ after) left (still, here.1),
          inr (all_stopped-stays before after w' still),
        )
      ]

  -- No step of the run is a shutdown.
  abbrev pub KeepsOpen : {s s' : System Db Error F C} → Step p f t config s s' → Type 0
  KeepsOpen (worked before after h move) = Unit
  KeepsOpen (sends envelope after went running) = Unit
  KeepsOpen closes = Unit
  KeepsOpen (passes time) = Unit
  KeepsOpen shuts_down = ⊥

  abbrev pub NoShutdown :
      {store : EventStore Db} {now : ℕ} {s : System Db Error F C}
      → Reach p f t config store now s
      → Type 0
  NoShutdown (started h) = Unit
  NoShutdown (later r step) = NoShutdown r × KeepsOpen step

  Step-Quiet :
      {s s' : System Db Error F C} (step : Step p f t config s s')
      → 0 < config.max_batch_delay
      → KeepsOpen step
      → Quiet s.shared s.workers
      → Quiet s'.shared s'.workers
  Step-Quiet (worked before after h move) timed keeps q =
      worked-Quiet before after timed (rw h at q) move
  Step-Quiet {s} (sends envelope after went running) timed keeps (inl (c, empty)) =
      let (_, open_still, _, _, _) = k.send_queues s.shared.channel after envelope went in
      absurd (cc (open_still, c))
  Step-Quiet {s} (sends envelope after went running) timed keeps (inr (staying, some_run)) =
      unfold send in inr (staying, inr running)
  Step-Quiet {s} closes timed keeps (inl (c, empty)) =
      let (queue, closed, _) = k.drop_closes s.shared.channel in inl (closed, queue ∙ empty)
  Step-Quiet {s} closes timed keeps (inr (staying, inl empty)) =
      inr (staying, inl ((k.drop_closes s.shared.channel).0 ∙ empty))
  Step-Quiet closes timed keeps (inr (staying, inr running)) = inr (staying, inr running)
  Step-Quiet (passes time) timed keeps q = q
  Step-Quiet shuts_down timed keeps q = absurd keeps

  Reach-Quiet :
      {store : EventStore Db} {now : ℕ} {s : System Db Error F C}
      (r : Reach p f t config store now s)
      → 0 < config.max_batch_delay
      → NoShutdown r
      → Quiet s.shared s.workers
  Reach-Quiet {store} {now} {s} (started h) timed keeps =
      let (c, made, same) = start-initial p f t k config store now s h in
      subst (λ (s : System Db Error F C). Quiet s.shared s.workers) same
        (inr (
          All-replicate (λ w. stays w ≡ true) config.num_processors starting refl,
          inl (k.channel_new config.buffer_size c made).0,
        ))
  Reach-Quiet (later r step) timed keeps =
      Step-Quiet step timed keeps.1 (Reach-Quiet r timed keeps.0)

  all_stopped-Quiet :
      (s : Shared Db F C) (workers : List (Worker Error))
      → all_stopped workers ≡ true
      → Quiet s workers
      → k.queued s.channel ≡ []
  all_stopped-Quiet s workers h (inl c) = c.1
  all_stopped-Quiet s workers h (inr (staying, inl empty)) = empty
  all_stopped-Quiet s workers h (inr (staying, inr busy)) = absurd (cc (h, busy))

  -- Once all tasks have ended, with or without a shutdown, what was sent and neither recorded nor
  -- refused is what the channel still holds, and the metrics count the recorded events.
  pub all_stopped-left :
      {store : EventStore Db} {now : ℕ} {s : System Db Error F C}
      → Reach p f t config store now s
      → all_stopped s.workers ≡ true
      → ((q : EventEnvelope → Bool)
          → count q s.sent
            ≡ count q (recorded p store s.history)
              + count q (refused p store s.history)
              + count q (k.queued s.shared.channel))
        × (s.shared.metrics.total_events_processed ≡ length (recorded p store s.history))
  all_stopped-left {store} {now} {s} r h =
      let a = Reach-Accounts p f t k config r in
      (
        λ q. omega (arith, a.conserved q, all_stopped-held_by q s.workers h),
        omega (
          arith,
          a.counts,
          all_stopped-uncounted_by s.workers h,
          count-all (recorded p store s.history),
        ),
      )

  -- With `max_batch_delay` above zero and without a shutdown, once all tasks have ended the channel is
  -- empty, every event sent was recorded or refused, and the metrics count the recorded ones.
  pub all_stopped-settled :
      {store : EventStore Db} {now : ℕ} {s : System Db Error F C}
      (r : Reach p f t config store now s)
      → 0 < config.max_batch_delay
      → NoShutdown r
      → all_stopped s.workers ≡ true
      → (k.queued s.shared.channel ≡ [])
        × ((q : EventEnvelope → Bool)
            → count q s.sent
              ≡ count q (recorded p store s.history) + count q (refused p store s.history))
        × (s.shared.metrics.total_events_processed ≡ length (recorded p store s.history))
  all_stopped-settled {store} {now} {s} r timed keeps h =
      let empty = all_stopped-Quiet s.shared s.workers h (Reach-Quiet r timed keeps) in
      let (left, metrics) = all_stopped-left r h in
      (empty, λ q. omega (arith, left q, ap (count q) empty), metrics)
