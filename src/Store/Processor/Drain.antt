-- ===== src/Store/Processor/Drain.antt =====
-- The end of a `BatchProcessor` of crates/ledgerfs-event-store/src/batch.rs: what its tasks have
-- left to do once the channel is closed.
use ledgerfs.Prelude.{
  ◌∙◌, ℕ, ◌+◌, ◌*◌, ◌≡◌, ◌≤◌, ◌<◌, refl, ap, Bool, true, List, ◌∷◌, arith, Bool-cases, inl, inr,
  sum_of, sum_of-append, sum_of-map, length, if◌then◌else◌,
}
use ledgerfs.Core.Events.{EventEnvelope}
use ledgerfs.Store.Platform.{Platform}
use ledgerfs.Store.Append.History.{Operation}
use ledgerfs.Store.Batch.{BatchConfig, EventBatch, is_empty}
use ledgerfs.Store.Processor.Channel.{Channel, IsChannel}
use ledgerfs.Store.Processor.Metrics.{Float}
use ledgerfs.Store.Processor.Worker.{
  Worker, starting, collecting, flushing, counting, stopped, Shared, Move, entered, panicked,
  received, disconnected, ticked, notified, appended, counted, on_event, on_closed, on_tick,
  on_shutdown,
}
use ledgerfs.Store.Processor.System.{
  System, notify, shutdown, Step, worked, sends, closes, passes, shuts_down,
}

module _ {Error : Type 0} where
  -- A bound on the steps of a task, ticks aside, while it receives nothing.
  abbrev pub weight : Worker Error → ℕ
  weight (collecting batch signalled) = if is_empty batch.events then 3 else 6
  weight (flushing batch start_time then_exit) = if then_exit then 2 else 5
  weight (counting batch_size start_time duration result then_exit) = if then_exit then 1 else 4
  weight stopped = 0
  weight starting = 4

module _ (Error : Type 0) where
  weight-on_event :
      (config : BatchConfig) (now : ℕ) (batch : EventBatch) (signalled : Bool) (e : EventEnvelope)
      → weight (on_event {Error = Error} config now batch e)
        < 4 + weight {Error = Error} (collecting batch signalled)
  unfolding on_event
  weight-on_event config now batch signalled e = ground arith

  weight-on_closed :
      (now : ℕ) (batch : EventBatch) (signalled : Bool)
      → weight (on_closed {Error = Error} now batch)
        < weight {Error = Error} (collecting batch signalled)
  unfolding on_closed
  weight-on_closed now batch signalled = ground arith

  weight-on_tick :
      (config : BatchConfig) (now : ℕ) (batch : EventBatch) (signalled : Bool)
      → weight (on_tick {Error = Error} config now batch)
        ≤ weight {Error = Error} (collecting batch signalled)
  unfolding on_tick
  weight-on_tick config now batch signalled = ground arith

  weight-notify : (w : Worker Error) → weight (notify w) ≡ weight w
  weight-notify (collecting batch signalled) = refl
  weight-notify (flushing batch start_time then_exit) = refl
  weight-notify (counting batch_size start_time duration result then_exit) = refl
  weight-notify stopped = refl
  weight-notify starting = refl

module _ {Db Error F C : Type 0} (p : Platform Db Error) (f : Float F) (t : Channel C)
    (k : IsChannel t) (config : BatchConfig) where
  -- A step of a task counts, unless it is a tick of its timer.
  abbrev pub effort_of :
      {s s' : Shared Db F C} {w w' : Worker Error} {operations : List Operation}
      → Move p f t config s w operations s' w'
      → ℕ
  effort_of (entered h) = 1
  effort_of (panicked h) = 1
  effort_of (received envelope rest h) = 1
  effort_of (disconnected h) = 1
  effort_of ticked = 0
  effort_of notified = 1
  effort_of (appended elapsed) = 1
  effort_of counted = 1

  abbrev pub effort : {s s' : System Db Error F C} → Step p f t config s s' → ℕ
  effort (worked before after h move) = effort_of move
  effort (sends envelope after went running) = 0
  effort closes = 0
  effort (passes time) = 0
  effort shuts_down = 0

  -- Some steps, with the efforts among them.
  pub data Run (s : System Db Error F C) : ℕ → System Db Error F C → Type 0 where
    idle : Run s 0 s
    then_step :
        {n : ℕ} {s' s'' : System Db Error F C}
        → Run s n s'
        → (step : Step p f t config s' s'') → Run s (n + effort step) s''

  abbrev pub work_left : System Db Error F C → ℕ
  work_left s = 4 * length (k.queued s.shared.channel) + sum_of weight s.workers

  Move-weight :
      {s s' : Shared Db F C} {w w' : Worker Error} {operations : List Operation}
      (move : Move p f t config s w operations s' w')
      → effort_of move + (4 * length (k.queued s'.channel) + weight w')
        ≤ 4 * length (k.queued s.channel) + weight w
  Move-weight {s} (entered h) = omega arith
  Move-weight {s} (panicked h) = omega arith
  Move-weight {s} (received {batch} {signalled} envelope rest h) =
      let (split, _, _) = k.recv_takes s.channel rest envelope h in
      omega (arith, weight-on_event Error config s.now batch signalled envelope, ap length split)
  Move-weight {s} (disconnected {batch} {signalled} h) =
      omega (arith, weight-on_closed Error s.now batch signalled)
  Move-weight {s} (ticked {batch} {signalled}) =
      omega (arith, weight-on_tick Error config s.now batch signalled)
  Move-weight {s} (notified {batch}) =
      unfold on_shutdown on_closed in omega (arith, weight-on_closed Error s.now batch true)
  Move-weight {s} (appended {batch} {start_time} {then_exit} elapsed) =
      elim (Bool-cases then_exit) [ inl e ↦ rw e (omega arith) | inr e ↦ rw e (omega arith) ]
  Move-weight {s} (counted {then_exit}) = elim (Bool-cases then_exit) [
    | inl e ↦ rw e (omega arith)
    | inr e ↦ rw e (omega arith)
  ]

  pub Step-closed :
      {s s' : System Db Error F C}
      → Step p f t config s s'
      → k.closed s.shared.channel ≡ true
      → k.closed s'.shared.channel ≡ true
  Step-closed (worked before after h (entered safe)) c = c
  Step-closed (worked before after h (panicked zero_period)) c = c
  Step-closed {s} (worked before after h (received envelope rest taken)) c =
      (k.recv_takes s.shared.channel rest envelope taken).1 ∙ c
  Step-closed (worked before after h (disconnected ended)) c = c
  Step-closed (worked before after h ticked) c = c
  Step-closed (worked before after h notified) c = c
  Step-closed (worked before after h (appended elapsed)) c = c
  Step-closed (worked before after h counted) c = c
  Step-closed {s} (sends envelope after went running) c =
      let (_, open_still, _, _, _) = k.send_queues s.shared.channel after envelope went in
      absurd (cc (open_still, c))
  Step-closed {s} closes c = (k.drop_closes s.shared.channel).1
  Step-closed (passes time) c = c
  Step-closed shuts_down c = unfold shutdown in c

  Step-work :
      {s s' : System Db Error F C} (step : Step p f t config s s')
      → k.closed s.shared.channel ≡ true
      → effort step + work_left s' ≤ work_left s
  Step-work {s} (worked before after {w} {w'} h move) c = omega (
    arith,
    Move-weight move,
    ap (sum_of weight) h,
    sum_of-append weight before (w ∷ after),
    sum_of-append weight before (w' ∷ after),
  )
  Step-work {s} (sends envelope after went running) c =
      let (_, open_still, _, _, _) = k.send_queues s.shared.channel after envelope went in
      absurd (cc (open_still, c))
  Step-work {s} closes c = omega (arith, ap length (k.drop_closes s.shared.channel).0)
  Step-work (passes time) c = omega arith
  Step-work {s} shuts_down c =
      unfold shutdown in omega (arith, sum_of-map weight notify (weight-notify Error) s.workers)

  pub Run-closed :
      {s s' : System Db Error F C} {n : ℕ}
      → Run s n s'
      → k.closed s.shared.channel ≡ true
      → k.closed s'.shared.channel ≡ true
  Run-closed idle c = c
  Run-closed (then_step run step) c = Step-closed step (Run-closed run c)

  -- After the channel is closed, the tasks take no more steps than are left, ticks aside: four for each
  -- event in the channel, and at most six for each task.
  pub Run-work :
      {s s' : System Db Error F C} {n : ℕ}
      → Run s n s'
      → k.closed s.shared.channel ≡ true
      → n + work_left s' ≤ work_left s
  Run-work idle c = omega arith
  Run-work (then_step run step) c = omega (arith, Run-work run c, Step-work step (Run-closed run c))
