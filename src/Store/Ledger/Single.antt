-- ===== src/Store/Ledger/Single.antt =====
-- An empty store after one append of an event or a batch of crates/ledgerfs-event-store/src/store.rs.
use ledgerfs.Prelude.{◌≡◌, refl, ok, List, [], ◌∷◌, length}
use ledgerfs.Core.Events.{EventEnvelope}
use ledgerfs.Store.Table.{Table}
use ledgerfs.Store.Platform.{Platform, IsPlatform}
use ledgerfs.Store.EventStore.{EventStore, key_of}
use ledgerfs.Store.Append.{append_event, append_events}
use ledgerfs.Store.Append.History.{single, several, perform}
use ledgerfs.Store.Ledger.{insert_event, insert_events, accepted}
use ledgerfs.Store.Ledger.Order.{Distinct, insert_events-Perm}
use ledgerfs.Store.Ledger.Bags.{All-NewTo}
use ledgerfs.Prelude.Perm.{length-Perm}
use mathlib.Core.List.{append-nil}
use ledgerfs.Store.Ledger.Refinement.{Holds, perform-Holds}

module _ {Db Error : Type 0} (p : Platform Db Error) (contents : Db → Table)
    (documented : IsPlatform p contents) where
  one_inserted : (e : EventEnvelope) → insert_events (key_of p) (e ∷ []) [] ≡ e ∷ []
  unfolding insert_events insert_event
  one_inserted e = refl

  -- It holds the event that was appended.
  pub append_event-Holds :
      (self : EventStore Db) (e : EventEnvelope)
      → contents self.db ≡ []
      → (append_event p self e).0 ≡ ok tt
      → Holds p contents documented (append_event p self e).1 (e ∷ [])
  unfolding accepted perform
  append_event-Holds self e empty good =
      let before : Holds p contents documented self [] = rw empty tt in
      rw (one_inserted e) at
        (rw good at (perform-Holds p contents documented self (single e) [] before))

  -- After a batch of events of different keys it holds as many events.
  pub append_events-Holds :
      (self : EventStore Db) (es : List EventEnvelope)
      → contents self.db ≡ []
      → Distinct (key_of p) es
      → (append_events p self es).0 ≡ ok tt
      → (l : List EventEnvelope) × Holds p contents documented (append_events p self es).1 l
        × (length l ≡ length es)
  unfolding accepted perform
  append_events-Holds self es empty distinct good =
      let before : Holds p contents documented self [] = rw empty tt in
      let perm =
        rw (append-nil es) at
          (insert_events-Perm (key_of p) es [] distinct (All-NewTo (key_of p) es)) in
      (
        insert_events (key_of p) es [],
        rw good at (perform-Holds p contents documented self (several es) [] before),
        length-Perm perm,
      )
