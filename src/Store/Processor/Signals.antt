-- ===== src/Store/Processor/Signals.antt =====
-- What `shutdown` of crates/ledgerfs-event-store/src/batch.rs does to tasks that do not wait.
use ledgerfs.Prelude.{◌≡◌, refl, Bool, true, false, List, [], ◌∷◌, map, All}
use ledgerfs.Store.Processor.Worker.{Worker, starting, collecting, flushing, counting, stopped}
use ledgerfs.Store.Processor.System.{System, notify, shutdown}

module _ {Error : Type 0} where
  -- Whether the task stands in `select!`.
  abbrev pub waits_in_select : Worker Error → Bool
  waits_in_select (collecting batch signalled) = true
  waits_in_select (flushing batch start_time then_exit) = false
  waits_in_select (counting batch_size start_time duration result then_exit) = false
  waits_in_select stopped = false
  waits_in_select starting = false

  notify_busy : (w : Worker Error) → waits_in_select w ≡ false → notify w ≡ w
  notify_busy (collecting batch signalled) h = absurd (cc h)
  notify_busy (flushing batch start_time then_exit) h = refl
  notify_busy (counting batch_size start_time duration result then_exit) h = refl
  notify_busy stopped h = refl
  notify_busy starting h = refl

  map-notify_busy :
      (workers : List (Worker Error))
      → All (λ w. waits_in_select w ≡ false) workers
      → map notify workers ≡ workers
  map-notify_busy [] h = refl
  map-notify_busy (w ∷ workers) h = rw (notify_busy w h.0) (rw (map-notify_busy workers h.1) refl)

-- A shutdown while no task waits, as when all of them flush, changes nothing: no task will end of it.
pub shutdown_lost :
    {Db Error F C : Type 0} (s : System Db Error F C)
    → All (λ w. waits_in_select w ≡ false) s.workers
    → shutdown s ≡ s
unfolding shutdown
shutdown_lost s h = rw (map-notify_busy s.workers h) refl
