-- ===== src/Store/Recovery/Tests.antt =====
-- The checks of recovery.rs at concrete events.
use ledgerfs.Prelude.{
  ◌≡◌, ◌≢◌, ◌*◌, ◌↔◌, refl, none, some, List, [], ◌∷◌, All, take, ok, arith, length,
}
use ledgerfs.Prelude.Int.{pos, ◌+ℤ◌, ◌-ℤ◌, ◌≤ℤ◌}
use ledgerfs.Prelude.Bytes.{bytes_eq}
use ledgerfs.Core.Types.{AccountId, usd, transfer}
use ledgerfs.Core.Amount.{new, add, subtract}
use ledgerfs.Core.Events.{TransactionProcessedEvent, EventEnvelope, transaction_processed}
use ledgerfs.Store.Recovery.{
  post, replay_event, replay, Balances, balance_of, replay_transaction, validate_event_envelope,
  expected_type, ten_years_before, temporal_errors, RecoveryStats, default_options, recover,
}
use ledgerfs.Store.Recovery.Laws.{
  InOrder, validate_event_envelope-ok, temporal_errors_iff, replay_transaction-transfer,
  recover-total,
}
use ledgerfs.Store.Recovery.Journal.{value_of, true_balance, replay_exact}
use ledgerfs.Store.Query.Tests.{stored, stored_result, stored_answer}
use ledgerfs.Store.Tests.Memory.{
  Memory, memory, held, memory-IsPlatform, empty_store, first, second,
}
use mathlib.Core.List.{Permᴰ}
use ledgerfs.Store.EventStore.{EventStore}
use ledgerfs.Store.Append.History.{perform_all}
use ledgerfs.Store.Query.Range.{InTime}
use ledgerfs.Store.Ledger.{recorded}
use ledgerfs.Store.Ledger.Tests.{operations, stampable}
use ledgerfs.Store.Recovery.Conservation.{StaysWithin, IsKnown, total, replay-total}
use ledgerfs.Store.Recovery.Ledger.{corrupted, recover-perform_all}

validate_event_envelope-ok_test : (validate_event_envelope (pos 1000) first ≡ ok tt) ↔ (
    (first.event_type ≡ expected_type first.event_data)
    × (first.aggregate_id ≢ "")
    × (first.timestamp ≤ℤ pos 1000)
    × (ten_years_before (pos 1000) ≤ℤ first.timestamp))
validate_event_envelope-ok_test = validate_event_envelope-ok (pos 1000) first

temporal_errors_iff_test :
    (temporal_errors none (second ∷ first ∷ []) ≡ 0) ↔ InOrder (second ∷ first ∷ [])
temporal_errors_iff_test = temporal_errors_iff (second ∷ first ∷ [])

abbrev payer : AccountId
payer = record { uuid = record { bytes = 1 ∷ [] } }

abbrev payee : AccountId
payee = record { uuid = record { bytes = 2 ∷ [] } }

abbrev payment : TransactionProcessedEvent
payment = record {
  transaction_id = record { uuid = record { bytes = 8 ∷ [] } };
  transaction_type = transfer;
  from_account = some payer;
  to_account = some payee;
  amount = new (pos 30);
  currency = usd;
  metadata = record { reference = none; description = none; tags = []; regulatory_flags = [] };
  processed_at = pos 4;
}

abbrev both : Balances
both = (payer, new (pos 100)) ∷ (payee, new (pos 5)) ∷ []

payer_ne_payee : payer ≢ payee
payer_ne_payee e = ground arith

payer_balance : balance_of both payer ≡ some (new (pos 100))
unfolding balance_of bytes_eq
payer_balance = refl

payee_balance : balance_of both payee ≡ some (new (pos 5))
unfolding balance_of bytes_eq
payee_balance = refl

taken : subtract (new (pos 100)) (new (pos 30)) ≡ ok (new (pos 70))
unfolding subtract ◌-ℤ◌
taken = refl

given : add (new (pos 5)) (new (pos 30)) ≡ ok (new (pos 35))
unfolding add ◌+ℤ◌
given = refl

replay_transaction-transfer_test :
    (balance_of (replay_transaction payment (both, 0)).0 payer ≡ some (new (pos 70)))
    × (balance_of (replay_transaction payment (both, 0)).0 payee ≡ some (new (pos 35)))
    × ((replay_transaction payment (both, 0)).1 ≡ 0)
    × (pos 70 +ℤ pos 35 ≡ pos 100 +ℤ pos 5)
replay_transaction-transfer_test =
    replay_transaction-transfer payment both payer payee (new (pos 100)) (new (pos 5))
      (new (pos 70)) (new (pos 35)) 0 refl refl payer_ne_payee payer_balance payee_balance taken
      given

recover-total_test :
    (stats : RecoveryStats) × (recover memory (λ i. pos 1000) stored default_options 12 ≡ ok stats)
    × (stats.total_events_checked ≡ 2 * length stored_result.events)
recover-total_test =
    recover-total memory (λ i. pos 1000) stored default_options 12 stored_result refl refl
      stored_answer

abbrev paid : EventEnvelope
paid = record first { event_data = transaction_processed payment }

no_error : (replay (first ∷ paid ∷ []) (both, 0)).1 ≡ 0
unfolding replay replay_event replay_transaction post balance_of bytes_eq add subtract ◌+ℤ◌ ◌-ℤ◌
no_error = refl

replay_exact_example :
    value_of (balance_of (replay (first ∷ paid ∷ []) (both, 0)).0 payee)
    ≡ true_balance payee (first ∷ paid ∷ []) (value_of (balance_of both payee))
replay_exact_example = replay_exact (first ∷ paid ∷ []) payee (both, 0) no_error

abbrev run : EventStore Memory
run = perform_all memory empty_store operations

recover-perform_all_example :
    (l : List EventEnvelope) × (stats : RecoveryStats) × Permᴰ l
      (recorded memory empty_store operations)
    × InTime l
    × (recover memory (λ i. pos 1000) run default_options 12 ≡ ok stats)
    × (stats.total_events_checked ≡ 2 * length (take 1000 l))
    × (stats.corrupted_events_found ≡ corrupted (λ i. pos 1000) 0 (take 1000 l))
    × (stats.corrupted_events_repaired ≡ 0)
    × (stats.consistency_errors ≡ (replay (take 1000 l) ([], 0)).1)
recover-perform_all_example =
    recover-perform_all memory held memory-IsPlatform (λ i. pos 1000) empty_store operations
      default_options 12 refl ((tt, tt), ((tt, tt), ((tt, tt), (tt, tt))))
      (
        (stampable 300 (omega arith), tt),
        ((stampable 700 (omega arith), tt), ((stampable 300 (omega arith), tt), (tt, tt))),
      )
      refl refl refl

within : StaysWithin (payer ∷ payee ∷ []) paid.event_data
unfolding bytes_eq
within = (payer, payee, refl, refl, refl, refl)

no_error_in_transfer : (replay (paid ∷ []) (both, 0)).1 ≡ 0
unfolding replay replay_event replay_transaction post balance_of bytes_eq add subtract ◌+ℤ◌ ◌-ℤ◌
no_error_in_transfer = refl

both-IsKnown : All (λ id. IsKnown (value_of (balance_of both id))) (payer ∷ payee ∷ [])
unfolding balance_of bytes_eq
both-IsKnown = (tt, (tt, tt))

replay-total_example :
    total (payer ∷ payee ∷ []) (replay (paid ∷ []) (both, 0)).0 ≡ total (payer ∷ payee ∷ []) both
replay-total_example =
    replay-total (paid ∷ []) (payer ∷ payee ∷ []) (both, 0) (within, tt) both-IsKnown
      no_error_in_transfer
