-- ===== src/Store/Recovery/Ledger.antt =====
-- What the checks of crates/ledgerfs-event-store/src/recovery.rs find in a store that was filled
-- by its appends.
use mathlib.Core.List.{Permᴰ}
use ledgerfs.Prelude.{
  ℕ, zero, suc, ◌+◌, ◌*◌, ◌≡◌, refl, ap, true, none, List, [], ◌∷◌, ok, err, arith, All, take,
  length,
}
use ledgerfs.Core.Types.{DateTime}
use ledgerfs.Core.Events.{EventEnvelope}
use ledgerfs.Store.Table.{Table}
use ledgerfs.Store.Keys.Order.{IsStampable}
use ledgerfs.Store.Rocks.{start}
use ledgerfs.Store.Platform.{Platform, IsPlatform}
use ledgerfs.Store.EventStore.{EventStore}
use ledgerfs.Store.Append.History.{Operation, perform_all}
use ledgerfs.Store.Query.{query_mode}
use ledgerfs.Store.Query.Window.{matching}
use ledgerfs.Store.Query.Answer.{query_events_answer}
use ledgerfs.Store.Query.Range.{InTime, filter_all}
use ledgerfs.Store.Ledger.{events_of, ledger_all, recorded}
use ledgerfs.Store.Ledger.Records.{DistinctAll}
use ledgerfs.Store.Ledger.Reads.{take_while_all, Kept-Decodes, history, history-Stored}
use ledgerfs.Store.Recovery.{
  validate_event_envelope, replay, temporal_errors, RecoveryStats, RecoveryOptions, everything,
  check_event, check_events, check_event_consistency, check_database_integrity,
  check_account_balance_consistency, check_temporal_consistency, no_stats, recover,
}
use ledgerfs.Store.Recovery.Laws.{InOrder, temporal_errors_iff}

-- How many of the events are not valid, the i-th at the i-th time of the clock.
pub corrupted : (ℕ → DateTime) → ℕ → List EventEnvelope → ℕ
corrupted clock i [] = 0
corrupted clock i (e ∷ es) = elim (validate_event_envelope (clock i) e) [
  | ok _ ↦ corrupted clock (i + 1) es
  | err _ ↦ suc (corrupted clock (i + 1) es)
]

All-take : {A : Type 0} (P : A → Type 0) (n : ℕ) (l : List A) → All P l → All P (take n l)
All-take P zero l a = tt
All-take P (suc n) [] a = tt
All-take P (suc n) (x ∷ l) a = (a.0, All-take P n l a.1)

InTime-take : (n : ℕ) (l : List EventEnvelope) → InTime l → InTime (take n l)
InTime-take zero l a = tt
InTime-take (suc n) [] a = tt
InTime-take (suc n) (e ∷ l) a = (All-take _ n l a.0, InTime-take n l a.1)

InTime-InOrder : (l : List EventEnvelope) → InTime l → InOrder l
InTime-InOrder [] a = tt
InTime-InOrder (e ∷ []) a = tt
InTime-InOrder (e ∷ f ∷ l) a = (a.0.0, InTime-InOrder (f ∷ l) a.1)

pub matching-everything : (l : List EventEnvelope) → matching (everything none) l ≡ l
matching-everything l = rw filter_all (rw filter_all (take_while_all l))

corrupted-cons :
    (clock : ℕ → DateTime) (i : ℕ) (e : EventEnvelope) (es : List EventEnvelope)
    → corrupted clock i (e ∷ es) ≡ corrupted clock i (e ∷ []) + corrupted clock (i + 1) es
unfolding corrupted
corrupted-cons clock i e es = ground arith

module _ {Db Error : Type 0} (p : Platform Db Error) (clock : ℕ → DateTime) where
  -- What a round of the loop adds to the statistics; nothing is repaired.
  check_event_adds :
      (options : RecoveryOptions) (i : ℕ) (e : EventEnvelope) (stats : RecoveryStats)
      → let after = check_event p clock options i e stats in
        (after.total_events_checked ≡ stats.total_events_checked + 1)
        × (after.corrupted_events_found ≡ stats.corrupted_events_found + corrupted clock i (e ∷ []))
        × (after.corrupted_events_repaired ≡ stats.corrupted_events_repaired)
        × (after.consistency_errors ≡ stats.consistency_errors)
  unfolding corrupted
  check_event_adds options i e stats = (ground arith, ground arith, ground arith, ground arith)

  check_events_adds :
      (options : RecoveryOptions) (i : ℕ) (es : List EventEnvelope) (stats : RecoveryStats)
      → let after = check_events p clock options i es stats in
        (after.total_events_checked ≡ stats.total_events_checked + length es)
        × (after.corrupted_events_found ≡ stats.corrupted_events_found + corrupted clock i es)
        × (after.corrupted_events_repaired ≡ stats.corrupted_events_repaired)
        × (after.consistency_errors ≡ stats.consistency_errors)
  unfolding check_events
  check_events_adds options i [] stats =
      unfold corrupted in (omega arith, omega arith, omega arith, omega arith)
  check_events_adds options i (e ∷ es) stats =
      let (total, found, repaired, errors) = check_event_adds options i e stats in
      let next = check_event p clock options i e stats in
      let (total', found', repaired', errors') = check_events_adds options (i + 1) es next in
      (
        omega (arith, total, total'),
        omega (arith, found, found', corrupted-cons clock i e es),
        omega (arith, repaired, repaired'),
        omega (arith, errors, errors'),
      )

module _ {Db Error : Type 0} (p : Platform Db Error) (contents : Db → Table)
    (documented : IsPlatform p contents) (clock : ℕ → DateTime) where
  -- Of a store that was empty, after any operations with events of times from 1970 on whose
  -- nanoseconds fit an `i64`, none with two events of
  -- one key, a recovery with the deep check and no limit, whose iterations meet no error, succeeds. Its
  -- checks see the first 1000 events `es` of the store in the order of time: it counts each of them
  -- twice, finds as corrupted those that are not valid, repairs none, and its consistency errors are
  -- those of the replay of `es` alone, the temporal check adds none.
  pub recover-perform_all :
      (self : EventStore Db) (operations : List Operation) (options : RecoveryOptions) (ms : ℕ)
      → contents self.db ≡ []
      → DistinctAll p contents documented operations
      → All (λ operation. All (λ e. IsStampable e.timestamp) (events_of operation)) operations
      → (p.rocks.iterator (perform_all p self operations).db start).fault ≡ none
      → options.deep_check ≡ true
      → options.max_events_to_check ≡ 0
      → (l : List EventEnvelope) × (stats : RecoveryStats) × Permᴰ l (recorded p self operations)
        × InTime l
        × (recover p clock (perform_all p self operations) options ms ≡ ok stats)
        × (stats.total_events_checked ≡ 2 * length (take 1000 l))
        × (stats.corrupted_events_found ≡ corrupted clock 0 (take 1000 l))
        × (stats.corrupted_events_repaired ≡ 0)
        × (stats.consistency_errors ≡ (replay (take 1000 l) ([], 0)).1)
  unfolding query_mode recover check_event_consistency check_database_integrity
      check_account_balance_consistency check_temporal_consistency
  recover-perform_all self operations options ms empty distinct stampable quiet deep unlimited =
      let after = perform_all p self operations in
      let l = ledger_all p self operations [] in
      let (held, perm, order) = history p contents documented self operations empty distinct in
      let (stored, in_time) =
        history-Stored p contents documented self operations empty distinct stampable in
      let answer =
        query_events_answer p contents documented after (everything none) l quiet
          (Kept-Decodes p after (contents after.db) l held) in
      let h = rw (matching-everything l) at answer in
      let es = take 1000 l in
      let ordered = (temporal_errors_iff es).1 (InTime-InOrder es (InTime-take 1000 l in_time)) in
      let counted : RecoveryStats = record (no_stats p clock) {
        total_events_checked = length es;
      } in
      let (total, found, repaired, errors) = check_events_adds p clock options 0 es counted in
      let checked = check_events p clock options 0 es counted in
      let stats : RecoveryStats = record checked {
        consistency_errors =
            (replay es ([], checked.consistency_errors)).1 + temporal_errors none es;
        recovery_duration_ms = ms;
      } in
      (
        l,
        stats,
        perm,
        in_time,
        rw deep (rw unlimited (rw h refl)),
        omega (arith, total),
        omega (arith, found),
        repaired,
        omega (arith, ordered, ap (λ n. (replay es ([], n)).1) errors),
      )
