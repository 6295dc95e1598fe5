-- ===== src/Store/Suite.antt =====
-- The tests that stand in the files of crates/ledgerfs-event-store/src, as functions of what they
-- draw and of the platform: `true` where every assertion holds and nothing panics.
pub mod Outcomes
pub mod Samples
pub mod Queries
pub mod Keys
pub mod Writer
mod Tests
use ledgerfs.Prelude.{
  ℕ, ◌≡◌, String, Bool, true, false, not, ◌&&◌, List, [], ◌∷◌, Result, ok, err, length, take, drop,
  ltb, ◌+◌, ◌==◌,
}
use ledgerfs.Prelude.Int.{pos}
use ledgerfs.Prelude.Bytes.{Bytes, bytes_eq}
use ledgerfs.Core.Types.{AccountId, DateTime, EventId, usd, customer, event_id_eq}
use ledgerfs.Core.Amount.{new}
use ledgerfs.Core.Events.{
  EventEnvelope, LedgerEvent, account_created, new_envelope, default_metadata,
}
use ledgerfs.Store.Platform.{Platform}
use ledgerfs.Store.EventStore.{EventStore}
use ledgerfs.Store.Append.{append_event, append_events}
use ledgerfs.Store.Query.{get_account_events, get_latest_events}
use ledgerfs.Store.Batch.{new_batch, add_to_batch, is_full, is_empty}
use ledgerfs.Store.Recovery.{RecoveryStats, default_options, recover}

-- `unwrap` panics on an error.
abbrev pub unwrapped : {E A : Type 0} → Result E A → (A → Bool) → Bool
unwrapped (err e) f = false
unwrapped (ok a) f = f a

-- What a test draws: a new account with the text of its identifier, the identifier of the envelope,
-- and the two times that it reads.
pub record Drawn : Type 0 where
  pub account_id : AccountId
  pub account_text : String
  pub event_id : EventId
  pub created_at : DateTime
  pub now : DateTime

-- `create_test_event`, which the other tests write out, some with another balance.
unfoldable pub create_event : ℕ → Drawn → EventEnvelope
create_event balance d =
    new_envelope d.event_id d.now d.account_text 1
      (account_created (record {
        account_id = d.account_id;
        account_type = customer;
        currency = usd;
        initial_balance = new (pos balance);
        metadata = record {
          account_type = customer;
          currency = usd;
          tags = [];
          regulatory_flags = [];
        };
        created_at = d.created_at;
      }))
      default_metadata

abbrev pub create_test_event : Drawn → EventEnvelope
create_test_event d = create_event 1000 d

-- The loop of `test_batch_append` from the i-th round on.
unfoldable pub create_from : ℕ → List Drawn → List EventEnvelope
create_from i [] = []
create_from i (d ∷ ds) = create_event (1000 + i) d ∷ create_from (i + 1) ds

unfoldable pub test_batch_creation : ℕ → Drawn → Bool
test_batch_creation now d =
    let batch = new_batch now in
    let after = add_to_batch batch (create_test_event d) in
    is_empty batch.events
    && (length after.events == 1 && (not (is_empty after.events) && not (is_full after 10)))

-- `account_events[0]` panics on an empty list.
abbrev first_is : EventId → List EventEnvelope → Bool
first_is id [] = false
first_is id (e ∷ es) = event_id_eq e.event_id id

module _ {Db Error : Type 0} (p : Platform Db Error) where
  unfoldable pub test_append_and_retrieve_event : EventStore Db → Drawn → Bool
  test_append_and_retrieve_event store d =
      let envelope = create_test_event d in
      let (appended, after) = append_event p store envelope in
      unwrapped appended (λ _.
        unwrapped (get_account_events p after d.account_id) (λ account_events.
          length account_events == 1 && first_is envelope.event_id account_events))

  unfoldable pub test_batch_append : EventStore Db → List Drawn → Bool
  test_batch_append store ds =
      let (appended, after) = append_events p store (create_from 0 ds) in
      unwrapped appended (λ _.
        unwrapped (get_latest_events p after 20) (λ latest_events. length latest_events == 10))

  -- `elapsed_ms` is what the clock measures of the recovery.
  unfoldable pub test_recovery_empty_store : (ℕ → DateTime) → ℕ → EventStore Db → Bool
  test_recovery_empty_store clock elapsed_ms store =
      unwrapped (recover p clock store default_options elapsed_ms)
        (λ stats. stats.corrupted_events_found == 0 && stats.consistency_errors == 0)

  unfoldable pub test_recovery_with_events : (ℕ → DateTime) → ℕ → EventStore Db → Drawn → Bool
  test_recovery_with_events clock elapsed_ms store d =
      let (appended, after) = append_event p store (create_test_event d) in
      unwrapped appended (λ _.
        unwrapped (recover p clock after default_options elapsed_ms) (λ stats.
          stats.total_events_checked == 1
          && (stats.corrupted_events_found == 0 && stats.consistency_errors == 0)))
