-- ===== src/Store/Recovery/Laws.antt =====
-- What the checks of recovery.rs find.
use text.Mathlib.TextEquality.{eq_iff}
use ledgerfs.Prelude.{
  ℕ, ◌+◌, ◌*◌, ◌≡◌, ◌≢◌, ◌↔◌, refl, sym, ◌∙◌, true, none, some, List, [], ◌∷◌, ok, length, arith,
}
use ledgerfs.Prelude.Int.{ℤ, ◌-ℤ◌, int_laws, ◌+ℤ◌, ◌≤ℤ◌}
use ledgerfs.Core.Types.{AccountId, DateTime, Amount, account_id_eq_iff}
use ledgerfs.Core.Amount.Laws.{add_exact, subtract_exact}
use ledgerfs.Core.Errors.{LedgerResult}
use ledgerfs.Core.Amount.{add, subtract}
use ledgerfs.Core.Events.{EventEnvelope, TransactionProcessedEvent}
use ledgerfs.Store.Platform.{Platform}
use ledgerfs.Store.EventStore.{EventStore, EventQueryResult}
use ledgerfs.Store.Query.{query_events}
use ledgerfs.Store.Recovery.{
  expected_type, ten_years_before, validate_event_envelope, Balances, balance_of, post,
  replay_transaction, temporal_errors, RecoveryStats, RecoveryOptions, everything, check_events,
  check_event, check_event_consistency, check_database_integrity, check_account_balance_consistency,
  check_temporal_consistency, recover,
}

-- An envelope passes exactly when its type is its event's, its aggregate has a name and its time is
-- within the ten years before now.
pub validate_event_envelope-ok :
    (now : DateTime) (envelope : EventEnvelope)
    → (validate_event_envelope now envelope ≡ ok tt) ↔ (
        (envelope.event_type ≡ expected_type envelope.event_data)
        × (envelope.aggregate_id ≢ "")
        × (envelope.timestamp ≤ℤ now)
        × (ten_years_before now ≤ℤ envelope.timestamp))
unfolding validate_event_envelope
validate_event_envelope-ok now envelope = ground (
  arith,
  eq_iff envelope.event_type (expected_type envelope.event_data),
  eq_iff envelope.aggregate_id "",
)

-- The times of the events do not decrease.
abbrev pub InOrder : List EventEnvelope → Type 0
InOrder [] = Unit
InOrder (a ∷ []) = Unit
InOrder (a ∷ b ∷ envelopes) = (a.timestamp ≤ℤ b.timestamp) × InOrder (b ∷ envelopes)

temporal_errors_after :
    (a : EventEnvelope) (envelopes : List EventEnvelope)
    → (temporal_errors (some a.timestamp) envelopes ≡ 0) ↔ InOrder (a ∷ envelopes)
unfolding temporal_errors
temporal_errors_after a [] = (λ h. tt, λ h. refl)
temporal_errors_after a (b ∷ envelopes) =
    let rest = temporal_errors_after b envelopes in ground arith

-- The temporal check finds no error exactly when the times do not decrease.
pub temporal_errors_iff :
    (envelopes : List EventEnvelope) → (temporal_errors none envelopes ≡ 0) ↔ InOrder envelopes
unfolding temporal_errors
temporal_errors_iff [] = (λ h. tt, λ h. refl)
temporal_errors_iff (a ∷ envelopes) = temporal_errors_after a envelopes

sum_of_transfer : (x y m : ℤ) → (x -ℤ m) +ℤ (y +ℤ m) ≡ x +ℤ y
sum_of_transfer x y m = omega int_laws

pub post_found :
    (f : Amount → LedgerResult Amount) (id : AccountId) (balances : Balances) (x y : Amount) (n : ℕ)
    → balance_of balances id ≡ some x
    → f x ≡ ok y
    → post f id (balances, n) ≡ ((id, y) ∷ balances, n)
unfolding post
post_found f id balances x y n h g = rw (h, post) (rw g refl)

pub balance_of_other :
    (id other : AccountId) (x : Amount) (balances : Balances)
    → id ≢ other
    → balance_of ((id, x) ∷ balances) other ≡ balance_of balances other
unfolding balance_of
balance_of_other id other x balances ne = ground (arith, account_id_eq_iff id other)

pub balance_of_same :
    (id : AccountId) (x : Amount) (balances : Balances)
    → balance_of ((id, x) ∷ balances) id ≡ some x
unfolding balance_of
balance_of_same id x balances = ground (arith, account_id_eq_iff id id)

-- A transaction between two different accounts whose balances are known, and whose amounts can be
-- subtracted and added, moves the amount from one balance to the other: it keeps their sum and
-- counts no error.
pub replay_transaction-transfer :
    (event : TransactionProcessedEvent) (balances : Balances) (from to : AccountId)
    (a b c d : Amount) (n : ℕ)
    → event.from_account ≡ some from
    → event.to_account ≡ some to
    → from ≢ to
    → balance_of balances from ≡ some a
    → balance_of balances to ≡ some b
    → subtract a event.amount ≡ ok c
    → add b event.amount ≡ ok d
    → let after = replay_transaction event (balances, n) in
      (balance_of after.0 from ≡ some c)
      × (balance_of after.0 to ≡ some d)
      × (after.1 ≡ n)
      × (c.value +ℤ d.value ≡ a.value +ℤ b.value)
unfolding replay_transaction
replay_transaction-transfer event balances from to a b c d n hf ht ne ha hb sub plus =
    let known = balance_of_other from to c balances ne ∙ hb in
    let sums = sum_of_transfer a.value b.value event.amount.value in
    rw hf (
      rw ht (
        rw (post_found (λ current. subtract current event.amount) from balances a c n ha sub) (
          rw
            (post_found (λ current. add current event.amount) to ((from, c) ∷ balances) b d n known
              plus)
            (
              balance_of_other to from d ((from, c) ∷ balances) (λ e. ne (sym e))
                  ∙ balance_of_same from c balances,
              balance_of_same to d ((from, c) ∷ balances),
              refl,
              cc (
                sums,
                ((subtract_exact a event.amount c).0 sub).1,
                ((add_exact b event.amount d).0 plus).1,
              ),
            ))))

module _ {Db Error : Type 0} (p : Platform Db Error) (clock : ℕ → DateTime) where
  check_event_counts :
      (options : RecoveryOptions) (i : ℕ) (e : EventEnvelope) (stats : RecoveryStats)
      → (check_event p clock options i e stats).total_events_checked
        ≡ stats.total_events_checked + 1
  check_event_counts options i e stats = ground arith

  total-check_events :
      (options : RecoveryOptions) (i : ℕ) (es : List EventEnvelope) (stats : RecoveryStats)
      → (check_events p clock options i es stats).total_events_checked
        ≡ stats.total_events_checked + length es
  unfolding check_events
  total-check_events options i [] stats = ground arith
  total-check_events options i (e ∷ es) stats = ground (
    arith,
    check_event_counts options i e stats,
    total-check_events options (i + 1) es (check_event p clock options i e stats),
  )

  -- A recovery with the deep check and no limit succeeds when the store can be read, and counts
  -- every event of the query twice.
  pub recover-total :
      (event_store : EventStore Db) (options : RecoveryOptions) (ms : ℕ) (r : EventQueryResult)
      → options.deep_check ≡ true
      → options.max_events_to_check ≡ 0
      → query_events p event_store (everything none) ≡ ok r
      → (stats : RecoveryStats) × (recover p clock event_store options ms ≡ ok stats)
        × (stats.total_events_checked ≡ 2 * length r.events)
  unfolding recover check_event_consistency check_database_integrity
      check_account_balance_consistency check_temporal_consistency
  recover-total event_store options ms r deep unlimited h =
      rw deep (rw unlimited (rw h (_, refl, total-check_events _ 0 r.events _ ∙ omega arith)))
