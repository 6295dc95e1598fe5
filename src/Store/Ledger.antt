-- ===== src/Store/Ledger.antt =====
-- What the event store promises, without bytes: a ledger is the list of its events in the order of
-- their keys. The operations of crates/ledgerfs-event-store/src/store.rs refine it.
pub mod Order
pub mod Refinement
pub mod Records
pub mod Unique
pub mod Reads
pub mod Lookup
pub mod Latest
pub mod Agree
pub mod Bags
pub mod Single
pub mod Tests
use Prim.Native.Nat.{Ordering}
use ledgerfs.Prelude.{ℕ, Bool, true, false, List, [], ◌∷◌, ◌++◌, Result, ok, err, if◌then◌else◌}
use ledgerfs.Prelude.Bytes.{Bytes, compare_bytes}
use ledgerfs.Core.Events.{EventEnvelope}
use ledgerfs.Store.Platform.{Platform}
use ledgerfs.Store.EventStore.{EventStore, key_of}
use ledgerfs.Store.Append.{append_event, append_events, append_events_optimized}
use ledgerfs.Store.Append.History.{Operation, single, several, optimized, compaction, perform}

-- An event goes to the place of its key, and takes the place of an event of the same key.
module _ (key : EventEnvelope → Bytes) where
  pub insert_event : EventEnvelope → List EventEnvelope → List EventEnvelope
  insert_event e [] = e ∷ []
  insert_event e (f ∷ l) = elim (compare_bytes (key e) (key f)) [
    | Ordering.lt ↦ e ∷ f ∷ l
    | Ordering.eq ↦ e ∷ l
    | Ordering.gt ↦ f ∷ insert_event e l
  ]

  pub insert_events : List EventEnvelope → List EventEnvelope → List EventEnvelope
  insert_events [] l = l
  insert_events (e ∷ es) l = insert_events es (insert_event e l)

abbrev pub events_of : Operation → List EventEnvelope
events_of (single envelope) = envelope ∷ []
events_of (several envelopes) = envelopes
events_of (optimized envelopes elapsed) = envelopes
events_of compaction = []

abbrev pub is_ok : {E A : Type 0} → Result E A → Bool
is_ok (ok a) = true
is_ok (err e) = false

module _ {Db Error : Type 0} (p : Platform Db Error) where
  -- Whether the operation returns `Ok`.
  unfoldable pub accepted : EventStore Db → Operation → Bool
  accepted self (single envelope) = is_ok (append_event p self envelope).0
  accepted self (several envelopes) = is_ok (append_events p self envelopes).0
  accepted self (optimized envelopes elapsed) =
      is_ok (append_events_optimized p self envelopes elapsed).0
  accepted self compaction = true

  -- The ledger takes the events of an operation that returns `Ok`, and no others.
  abbrev pub ledger_after : EventStore Db → Operation → List EventEnvelope → List EventEnvelope
  ledger_after self operation l =
      if accepted self operation then insert_events (key_of p) (events_of operation) l else l

  pub ledger_all : EventStore Db → List Operation → List EventEnvelope → List EventEnvelope
  ledger_all self [] l = l
  ledger_all self (operation ∷ operations) l =
      ledger_all (perform p self operation) operations (ledger_after self operation l)

  -- All events of the operations that return `Ok`.
  unfoldable pub recorded : EventStore Db → List Operation → List EventEnvelope
  recorded self [] = []
  recorded self (operation ∷ operations) =
      let rest = recorded (perform p self operation) operations in
      if accepted self operation then events_of operation ++ rest else rest
