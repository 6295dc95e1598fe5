-- ===== src/Store/Ledger/Lookup.antt =====
-- `get_event` of crates/ledgerfs-event-store/src/store.rs, and the append that it reads back.
use mathlib.Core.List.{Permᴰ}
use mathlib.Core.Path.{subst}
use ledgerfs.Prelude.{
  ◌≡◌, refl, sym, ◌∙◌, ap, Bool, true, false, ◌||◌, none, some, List, [], ◌∷◌, ◌++◌, ok, arith, All,
}
use ledgerfs.Prelude.Bytes.{bytes_eq_refl}
use ledgerfs.Core.Types.{EventId, event_id_eq}
use ledgerfs.Core.Events.{EventEnvelope}
use ledgerfs.Store.Table.{Table}
use ledgerfs.Store.Rocks.{start}
use ledgerfs.Store.Platform.{Platform, IsPlatform}
use ledgerfs.Store.EventStore.{EventStore}
use ledgerfs.Store.Append.{append_event}
use ledgerfs.Store.Append.History.{Operation, single, perform, perform_all}
use ledgerfs.Store.Query.{get_event}
use ledgerfs.Store.Ledger.{ledger_all, recorded, accepted}
use ledgerfs.Store.Ledger.Refinement.{Holds, perform_all-Holds}
use ledgerfs.Store.Ledger.Records.{DistinctAll, ledger_all-Perm}
use ledgerfs.Store.Ledger.Reads.{find_first, find_event_answer, Kept-Decodes}

All-Perm : (P : EventEnvelope → Type 0) (l m : List EventEnvelope) → Permᴰ l m → All P m → All P l
All-Perm P _ _ Permᴰ.nil a = tt
All-Perm P _ _ (Permᴰ.cons {l₁} {l₂} h q) a = (subst P (sym h) a.0, All-Perm P l₁ l₂ q a.1)
All-Perm P _ _ (Permᴰ.swap h k) a = (subst P (sym h) a.1.0, (subst P (sym k) a.0, a.1.1))
All-Perm P l m (Permᴰ.trans {l₂} q r) a = All-Perm P l l₂ q (All-Perm P l₂ m r a)

-- Whether an event has the identifier.
abbrev has_id : EventId → List EventEnvelope → Bool
has_id id [] = false
has_id id (e ∷ l) = event_id_eq e.event_id id || has_id id l

has_id-Perm : (id : EventId) (l m : List EventEnvelope) → Permᴰ l m → has_id id l ≡ has_id id m
has_id-Perm id _ _ Permᴰ.nil = refl
has_id-Perm id _ _ (Permᴰ.cons {l₁} {l₂} h q) = ground (arith, h, has_id-Perm id l₁ l₂ q)
has_id-Perm id _ _ (Permᴰ.swap h k) = ground (arith, h, k)
has_id-Perm id l m (Permᴰ.trans {l₂} q r) = has_id-Perm id l l₂ q ∙ has_id-Perm id l₂ m r

find_first_only :
    (id : EventId) (e : EventEnvelope) (l : List EventEnvelope)
    → All (λ f. event_id_eq f.event_id id ≡ true → f ≡ e) l
    → has_id id l ≡ true
    → find_first id l ≡ some e
find_first_only id e [] a h = cc
find_first_only id e (f ∷ l) a h = ground (arith, a.0, find_first_only id e l a.1)

others_only :
    (id : EventId) (e : EventEnvelope) (l : List EventEnvelope)
    → All (λ f. event_id_eq f.event_id id ≡ false) l
    → All (λ f. event_id_eq f.event_id id ≡ true → f ≡ e) l
others_only id e [] a = tt
others_only id e (f ∷ l) a = (λ h. cc (h, a.0), others_only id e l a.1)

find_first-Perm :
    (e : EventEnvelope) (l rest : List EventEnvelope)
    → Permᴰ l (e ∷ rest)
    → All (λ f. event_id_eq f.event_id e.event_id ≡ false) rest
    → find_first e.event_id l ≡ some e
find_first-Perm e l rest q a =
    find_first_only e.event_id e l
      (All-Perm (λ f. event_id_eq f.event_id e.event_id ≡ true → f ≡ e) l (e ∷ rest) q
        (λ h. refl, others_only e.event_id e rest a))
      (has_id-Perm e.event_id l (e ∷ rest) q ∙ ground (arith, bytes_eq_refl e.event_id.uuid.bytes))

recorded_single :
    {Db Error : Type 0} (p : Platform Db Error) (self : EventStore Db) (envelope : EventEnvelope)
    (operations : List Operation)
    → (append_event p self envelope).0 ≡ ok tt
    → recorded p self (single envelope ∷ operations)
      ≡ envelope ∷ recorded p (append_event p self envelope).1 operations
unfolding recorded accepted perform
recorded_single p self envelope operations good = rw good refl

module _ {Db Error : Type 0} (p : Platform Db Error) (contents : Db → Table)
    (documented : IsPlatform p contents) where
  -- On a store that holds a ledger, a scan without an error finds the first event of the identifier in
  -- the order of the keys.
  pub get_event_answer :
      (self : EventStore Db) (id : EventId) (l : List EventEnvelope)
      → Holds p contents documented self l
      → (p.rocks.iterator self.db start).fault ≡ none
      → get_event p self id ≡ ok (find_first id l)
  unfolding get_event
  get_event_answer self id l held quiet =
      rw (documented.is_rocks.iterator_all self.db start quiet) (
        rw quiet (
          find_event_answer p self id (contents self.db) l
            (Kept-Decodes p self (contents self.db) l held)))

  -- An event that was appended is the one that `get_event` returns for its identifier, after any
  -- further operations: where the store held a ledger, no later operation carries two events of one
  -- key, no other event has the identifier, and the scan meets no error.
  pub get_event-append_event :
      (self : EventStore Db) (envelope : EventEnvelope) (operations : List Operation)
      (l : List EventEnvelope)
      → Holds p contents documented self l
      → (append_event p self envelope).0 ≡ ok tt
      → DistinctAll p contents documented operations
      → All
          (λ f. event_id_eq f.event_id envelope.event_id ≡ false)
          (recorded p (append_event p self envelope).1 operations ++ l)
      → (p.rocks.iterator
          (perform_all p (append_event p self envelope).1 operations).db
          start).fault
        ≡ none
      → get_event p (perform_all p (append_event p self envelope).1 operations) envelope.event_id
        ≡ ok (some envelope)
  unfolding perform_all perform
  get_event-append_event self envelope operations l held good distinct unique quiet =
      let all = single envelope ∷ operations in
      let after = perform_all p (append_event p self envelope).1 operations in
      let perm = ledger_all-Perm p contents documented self all l ((tt, tt), distinct) held in
      let kept = perform_all-Holds p contents documented self all l held in
      get_event_answer after envelope.event_id (ledger_all p self all l) kept quiet
      ∙ ap ok (
          find_first-Perm envelope (ledger_all p self all l)
            (recorded p (append_event p self envelope).1 operations ++ l)
            (subst (λ (r : List EventEnvelope). Permᴰ (ledger_all p self all l) (r ++ l))
              (recorded_single p self envelope operations good) perm)
            unique)
