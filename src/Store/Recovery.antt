-- ===== src/Store/Recovery.antt =====
-- The checks of crates/ledgerfs-event-store/src/recovery.rs. Log lines are left out; the clock is
-- an argument, read once for each event that is validated.
pub mod Laws
pub mod Journal
pub mod Ledger
pub mod Conservation
mod Tests
use text.Mathlib.Text.{◌==◌ as str_eq}
use ledgerfs.Prelude.{
  ℕ, ◌+◌, ◌*◌, String, Bool, true, false, not, Option, none, some, List, [], ◌∷◌, Result, ok, err,
  ◌>>=◌, map_err, if◌then◌else◌, length, ltb,
}
use ledgerfs.Prelude.Int.{pos, ◌-ℤ◌}
use ledgerfs.Core.Types.{AccountId, DateTime, Amount, before, account_id_eq}
use ledgerfs.Core.Errors.{LedgerResult}
use ledgerfs.Core.Amount.{add, subtract}
use ledgerfs.Core.Events.{
  EventEnvelope, LedgerEvent, TransactionProcessedEvent, account_created, account_status_changed,
  account_metadata_updated, transaction_processed, balance_updated, merkle_root_generated,
  digest_published,
}
use ledgerfs.Store.Platform.{Platform}
use ledgerfs.Store.EventStore.{EventStore, EventQuery, EventStoreError}
use ledgerfs.Store.Query.{query_events}

pub data RecoveryError (Error : Type 0) : Type 0 where
  event_store_error consistency_check_failed : EventStoreError Error → RecoveryError Error
  recovery_failed corrupted_data : String → RecoveryError Error

pub record RecoveryStats : Type 0 where
  pub total_events_checked : ℕ
  pub corrupted_events_found : ℕ
  pub corrupted_events_repaired : ℕ
  pub consistency_errors : ℕ
  pub recovery_duration_ms : ℕ

pub record RecoveryOptions : Type 0 where
  pub auto_repair : Bool
  pub deep_check : Bool
  pub max_events_to_check : ℕ
  pub create_backup : Bool

abbrev pub default_options : RecoveryOptions
default_options = record {
  auto_repair = false;
  deep_check = true;
  max_events_to_check = 0;
  create_backup = true;
}

-- The error texts of `validate_event_envelope`, before they are formatted.
pub data Complaint : Type 0 where
  type_mismatch : String → String → Complaint
  empty_aggregate_id : Complaint
  in_the_future too_old : DateTime → Complaint

-- The `match` of `validate_event_envelope`.
abbrev pub expected_type : LedgerEvent → String
expected_type (account_created _) = "AccountCreated"
expected_type (account_status_changed _) = "AccountStatusChanged"
expected_type (account_metadata_updated _) = "AccountMetadataUpdated"
expected_type (transaction_processed _) = "TransactionProcessed"
expected_type (balance_updated _) = "BalanceUpdated"
expected_type (merkle_root_generated _) = "MerkleRootGenerated"
expected_type (digest_published _) = "DigestPublished"

-- `now - Duration::days(365 * 10)`, in nanoseconds.
abbrev pub ten_years_before : DateTime → DateTime
ten_years_before now = now -ℤ pos (365 * 10 * 86400000000000)

unfoldable pub validate_event_envelope : DateTime → EventEnvelope → Result Complaint (Unit {0})
validate_event_envelope now envelope =
    let expected = expected_type envelope.event_data in
    if not (str_eq envelope.event_type expected)
    then err (type_mismatch expected envelope.event_type)
    else if str_eq envelope.aggregate_id ""
    then err empty_aggregate_id
    else if before now envelope.timestamp
    then err (in_the_future envelope.timestamp)
    else if before envelope.timestamp (ten_years_before now)
    then err (too_old envelope.timestamp)
    else ok tt

-- The map of the replay, an association list whose newest pair counts.
abbrev pub Balances : Type 0
Balances = List (AccountId × Amount)

unfoldable pub balance_of : Balances → AccountId → Option Amount
balance_of [] id = none
balance_of ((a, amount) ∷ balances) id =
    if account_id_eq a id then some amount else balance_of balances id

-- `if let Some(current) = get(id) { match f(current) { Ok(new) => insert, Err(_) => errors += 1 } }`
unfoldable pub post : (Amount → LedgerResult Amount) → AccountId → Balances × ℕ → Balances × ℕ
post f id (balances, errors) = elim (balance_of balances id) [
  | none ↦ (balances, errors)
  | some current ↦ elim (f current) [
    | ok new_balance ↦ ((id, new_balance) ∷ balances, errors)
    | err _ ↦ (balances, errors + 1)
  ]
]

abbrev pub post_option :
    (Amount → LedgerResult Amount) → Option AccountId → Balances × ℕ → Balances × ℕ
post_option f none state = state
post_option f (some id) state = post f id state

unfoldable pub replay_transaction : TransactionProcessedEvent → Balances × ℕ → Balances × ℕ
replay_transaction event state =
    post_option (λ current. add current event.amount) event.to_account
      (post_option (λ current. subtract current event.amount) event.from_account state)

unfoldable pub replay_event : LedgerEvent → Balances × ℕ → Balances × ℕ
replay_event (account_created event) (balances, errors) =
    ((event.account_id, event.initial_balance) ∷ balances, errors)
replay_event (balance_updated event) (balances, errors) =
    ((event.account_id, event.new_balance) ∷ balances, errors)
replay_event (transaction_processed event) state = replay_transaction event state
replay_event _ state = state

unfoldable pub replay : List EventEnvelope → Balances × ℕ → Balances × ℕ
replay [] state = state
replay (envelope ∷ envelopes) state = replay envelopes (replay_event envelope.event_data state)

-- The errors that the loop of `check_temporal_consistency` counts.
pub temporal_errors : Option DateTime → List EventEnvelope → ℕ
temporal_errors last [] = 0
temporal_errors last (envelope ∷ envelopes) =
    let rest = temporal_errors (some envelope.timestamp) envelopes in
    elim last [
      | none ↦ rest
      | some last_ts ↦ if before envelope.timestamp last_ts then 1 + rest else rest
    ]

-- `repair_event` is a placeholder that always fails, as are the backups.
abbrev pub repair_event : {Error : Type 0} → EventEnvelope → Result (RecoveryError Error) (Unit {0})
repair_event envelope = err (recovery_failed "Event repair not implemented")

abbrev pub create_backup : {Error : Type 0} → String → Result (RecoveryError Error) (Unit {0})
create_backup backup_path = ok tt

abbrev pub restore_from_backup : {Error : Type 0} → String → Result (RecoveryError Error) (Unit {0})
restore_from_backup backup_path = ok tt

-- The query of every check but the second, which sets a limit.
abbrev pub everything : Option ℕ → EventQuery
everything limit = record {
  account_id = none;
  start_time = none;
  end_time = none;
  limit = limit;
  offset = none;
  event_types = none;
}

module _ {Db Error : Type 0} (p : Platform Db Error) (clock : ℕ → DateTime) where
  abbrev pub Checked : Type 0
  Checked = Result (RecoveryError Error) RecoveryStats

  abbrev events_of : EventStore Db → Option ℕ → Result (RecoveryError Error) (List EventEnvelope)
  events_of event_store limit =
      map_err event_store_error (query_events p event_store (everything limit)) >>= λ r. ok r.events

  -- The statistics of a check that fails are lost with the error.
  pub check_database_integrity : EventStore Db → RecoveryStats → Checked
  check_database_integrity event_store stats = do
    result ← map_err consistency_check_failed (query_events p event_store (everything none))
    ok (record stats { total_events_checked = length result.events })

  -- One round of the loop of `check_event_consistency`, at the i-th event.
  abbrev repaired : Bool → EventEnvelope → ℕ
  repaired auto_repair envelope =
      if auto_repair
      then elim (repair_event {Error = Error} envelope) [ ok _ ↦ 1 | err _ ↦ 0 ]
      else 0

  abbrev pub check_event : RecoveryOptions → ℕ → EventEnvelope → RecoveryStats → RecoveryStats
  check_event options i envelope stats = elim (validate_event_envelope (clock i) envelope) [
    | ok _ ↦ record stats { total_events_checked = stats.total_events_checked + 1 }
    | err _ ↦ record stats {
      total_events_checked = stats.total_events_checked + 1;
      corrupted_events_found = stats.corrupted_events_found + 1;
      corrupted_events_repaired =
          stats.corrupted_events_repaired + repaired options.auto_repair envelope;
    }
  ]

  pub check_events : RecoveryOptions → ℕ → List EventEnvelope → RecoveryStats → RecoveryStats
  check_events options i [] stats = stats
  check_events options i (envelope ∷ envelopes) stats =
      check_events options (i + 1) envelopes (check_event options i envelope stats)

  pub check_event_consistency : EventStore Db → RecoveryOptions → RecoveryStats → Checked
  check_event_consistency event_store options stats = do
    let limit = if ltb 0 options.max_events_to_check then some options.max_events_to_check else none
    events ← events_of event_store limit
    ok (check_events options 0 events stats)

  pub check_account_balance_consistency : EventStore Db → RecoveryStats → Checked
  check_account_balance_consistency event_store stats = do
    events ← events_of event_store none
    ok (record stats { consistency_errors = (replay events ([], stats.consistency_errors)).1 })

  pub check_temporal_consistency : EventStore Db → RecoveryStats → Checked
  check_temporal_consistency event_store stats = do
    events ← events_of event_store none
    ok (record stats {
      consistency_errors = stats.consistency_errors + temporal_errors none events;
    })

  abbrev pub no_stats : RecoveryStats
  no_stats = record {
    total_events_checked = 0;
    corrupted_events_found = 0;
    corrupted_events_repaired = 0;
    consistency_errors = 0;
    recovery_duration_ms = 0;
  }

  pub recover : EventStore Db → RecoveryOptions → ℕ → Checked
  recover event_store options elapsed_ms = do
    checked ← check_database_integrity event_store no_stats
    deep ←
        if options.deep_check
        then check_event_consistency event_store options checked
        else ok checked
    balanced ← check_account_balance_consistency event_store deep
    ordered ← check_temporal_consistency event_store balanced
    ok (record ordered { recovery_duration_ms = elapsed_ms })
