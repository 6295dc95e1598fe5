-- ===== src/Store/Processor/Progress.antt =====
-- Once the channel is closed, the tasks of a `BatchProcessor` of
-- crates/ledgerfs-event-store/src/batch.rs can always go on until all have ended.
use ledgerfs.Prelude.{
  ℕ, zero, suc, ◌+◌, ◌≡◌, ◌≤◌, ◌⊎◌, refl, true, false, List, [], ◌∷◌, ◌++◌, arith, Bool-cases, inl,
  inr, ap,
}
use ledgerfs.Core.Events.{EventEnvelope}
use ledgerfs.Store.Platform.{Platform}
use ledgerfs.Store.Append.History.{Operation}
use ledgerfs.Store.Batch.{BatchConfig}
use ledgerfs.Store.Processor.Channel.{Channel, IsChannel, Recv, waits, takes, ends}
use ledgerfs.Store.Processor.Metrics.{Float}
use ledgerfs.Store.Processor.Worker.{
  Worker, starting, collecting, flushing, counting, stopped, Shared, Move, entered, panicked,
  received, disconnected, ticked, notified, appended, counted, period,
}
use ledgerfs.Store.Processor.System.{
  System, is_stopped, all_stopped, Step, worked, sends, closes, passes, shuts_down,
}
use ledgerfs.Store.Processor.Drain.{
  effort_of, effort, Run, then_step, idle, work_left, Run-work, Run-closed,
}

recv_cases :
    {C : Type 0} (r : Recv C)
    → (r ≡ waits) ⊎ (r ≡ ends) ⊎ ((e : EventEnvelope) × (rest : C) × (r ≡ takes e rest))
recv_cases waits = inl refl
recv_cases ends = inr (inl refl)
recv_cases (takes e rest) = inr (inr (e, rest, refl))

running :
    {Error : Type 0} (workers : List (Worker Error))
    → all_stopped workers ≡ false
    → (before : List (Worker Error)) × (w : Worker Error) × (after : List (Worker Error)) × (workers
        ≡ before ++ w ∷ after)
      × (is_stopped w ≡ false)
unfolding all_stopped
running [] h = absurd (cc h)
running (w ∷ workers) h = elim (Bool-cases (is_stopped w)) [
  | inl e ↦
      let (before, x, after, split, live) = running workers (ground arith) in
      (w ∷ before, x, after, ap (λ l. w ∷ l) split, live)
  | inr e ↦ ([], w, workers, refl, e)
]

module _ {Db Error F C : Type 0} (p : Platform Db Error) (f : Float F) (t : Channel C)
    (k : IsChannel t) (config : BatchConfig) where
  -- A task goes on by itself: without its timer and without a notification of a shutdown.
  abbrev pub IsOwn :
      {s s' : Shared Db F C} {w w' : Worker Error} {operations : List Operation}
      → Move p f t config s w operations s' w'
      → Type 0
  IsOwn (entered h) = Unit
  IsOwn (panicked h) = Unit
  IsOwn (received envelope rest h) = Unit
  IsOwn (disconnected h) = Unit
  IsOwn ticked = ⊥
  IsOwn notified = ⊥
  IsOwn (appended elapsed) = Unit
  IsOwn counted = Unit

  abbrev pub IsOfTask : {s s' : System Db Error F C} → Step p f t config s s' → Type 0
  IsOfTask (worked before after h move) = IsOwn move
  IsOfTask (sends envelope after went running) = ⊥
  IsOfTask closes = ⊥
  IsOfTask (passes time) = ⊥
  IsOfTask shuts_down = ⊥

  -- All steps of the run are of tasks that go on by themselves.
  abbrev pub IsAlone :
      {s : System Db Error F C} {n : ℕ} {s' : System Db Error F C}
      → Run p f t k config s n s'
      → Type 0
  IsAlone idle = Unit
  IsAlone (then_step run step) = IsAlone run × IsOfTask step

  abbrev Moves : Shared Db F C → Worker Error → Type 0
  Moves s w =
      (operations : List Operation) × (s' : Shared Db F C) × (w' : Worker Error) × (move : Move p f
        t config s w operations s' w')
      × (effort_of p f t k config move ≡ 1)
      × IsOwn move

  progress :
      (s : Shared Db F C) (w : Worker Error)
      → k.closed s.channel ≡ true
      → is_stopped w ≡ false
      → Moves s w
  progress s starting c live = elim (Bool-cases (t.interval_panics (period config))) [
    | inl zero_period ↦ (_, _, _, panicked zero_period, refl, tt)
    | inr safe ↦ (_, _, _, entered safe, refl, tt)
  ]
  progress s (collecting batch signalled) c live = elim (recv_cases (t.recv s.channel)) [
    | inl waiting ↦ absurd (k.recv_wakes s.channel c waiting)
    | inr (inl done) ↦ (_, _, _, disconnected done, refl, tt)
    | inr (inr (e, rest, h)) ↦ (_, _, _, received e rest h, refl, tt)
  ]
  progress s (flushing batch start_time then_exit) c live = (_, _, _, appended 0, refl, tt)
  progress s (counting batch_size start_time duration result then_exit) c live =
      (_, _, _, counted, refl, tt)
  progress s stopped c live = absurd (cc live)

  Step-progress :
      (s : System Db Error F C)
      → k.closed s.shared.channel ≡ true
      → all_stopped s.workers ≡ false
      → (s' : System Db Error F C) × (step : Step p f t config s s') × (effort p f t k config step
          ≡ 1)
        × IsOfTask step
  Step-progress s c h =
      let (before, w, after, split, live) = running s.workers h in
      let (operations, s', w', move, one, own) = progress s.shared w c live in
      (_, worked before after split move, one, own)

  -- The tasks alone lead to the end of all, within the work that is left.
  abbrev Drains : System Db Error F C → Type 0
  Drains s =
      (m : ℕ) × (end : System Db Error F C) × (run : Run p f t k config s m end) × IsAlone run
      × (m ≤ work_left p f t k config s)
      × (all_stopped end.workers ≡ true)

  drain_within :
      (fuel : ℕ) {n : ℕ} {s s' : System Db Error F C} (run : Run p f t k config s n s')
      → IsAlone run
      → k.closed s.shared.channel ≡ true
      → work_left p f t k config s ≤ n + fuel
      → Drains s
  drain_within zero {n} {s} {s'} run alone c enough = elim (Bool-cases (all_stopped s'.workers)) [
    | inl done ↦ (n, s', run, alone, omega (arith, Run-work p f t k config run c), done)
    | inr busy ↦
        let (s'', step, one, own) = Step-progress s' (Run-closed p f t k config run c) busy in
        absurd (omega (arith, one, Run-work p f t k config (then_step run step) c))
  ]
  drain_within (suc fuel) {n} {s} {s'} run alone c enough =
      elim (Bool-cases (all_stopped s'.workers)) [
        | inl done ↦ (n, s', run, alone, omega (arith, Run-work p f t k config run c), done)
        | inr busy ↦
            let (s'', step, one, own) = Step-progress s' (Run-closed p f t k config run c) busy in
            drain_within fuel (then_step run step) (alone, own) c (omega (arith, one))
      ]

  -- After the channel is closed, the tasks can go on by themselves until all have ended, within the
  -- work that is left: no task waits for its timer, for a shutdown, for a sender or for the clock.
  pub Run-all_stopped :
      (s : System Db Error F C)
      → k.closed s.shared.channel ≡ true
      → (m : ℕ) × (end : System Db Error F C) × (run : Run p f t k config s m end) × IsAlone run
        × (m ≤ work_left p f t k config s)
        × (all_stopped end.workers ≡ true)
  Run-all_stopped s c = drain_within (work_left p f t k config s) idle tt c (omega arith)
