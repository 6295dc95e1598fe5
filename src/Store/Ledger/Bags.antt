-- ===== src/Store/Ledger/Bags.antt =====
-- The events of a store as a bag, which forgets the order in which they came. The queries of
-- crates/ledgerfs-event-store/src/store.rs answer from the bag.
use Prim.Native.Nat.{Ordering}
use mathlib.Core.List.{Permᴰ, append-nil}
use mathlib.Core.List.Permᴰ
use mathlib.Core.HLevel.{hedberg}
use mathlib.Core.Quot
use mathlib.Core.Quot.{Quot}
use ledgerfs.Prelude.{
  ◌≡◌, refl, sym, ◌∙◌, ap, Bool, none, List, [], ◌∷◌, ok, All, count, take, drop, length, ◌==◌,
}
use ledgerfs.Prelude.Perm.{All-Perm, count-Perm}
use ledgerfs.Prelude.Bytes.{
  Bytes, compare_bytes, compare_bytes-eq, compare_bytes_swap, compare_bytes_trans,
  compare_bytes_refl,
}
use ledgerfs.Core.Events.{EventEnvelope}
use ledgerfs.Core.Equality.{Envelope-discrete}
use ledgerfs.Store.Table.{Table}
use ledgerfs.Store.Platform.{Platform, IsPlatform}
use ledgerfs.Store.EventStore.{EventStore, EventQuery, EventQueryResult, key_of, unwrap_or}
use ledgerfs.Store.Append.History.{Operation, perform_all}
use ledgerfs.Store.Query.{query_events, query_mode}
use ledgerfs.Store.Query.Window.{matching}
use ledgerfs.Store.Query.Answer.{query_events_answer}
use ledgerfs.Store.Ledger.{insert_event, insert_events, ledger_all, recorded}
use ledgerfs.Store.Ledger.Order.{NewTo, Distinct, insert_events-Perm, All-insert_event}
use ledgerfs.Store.Ledger.Records.{InKeyOrder, DistinctAll}
use ledgerfs.Store.Ledger.Reads.{history}
use ledgerfs.Store.Ledger.Unique.{InKeyOrder-unique}
use ledgerfs.Store.Ledger.Agree.{iterated, Decodes-mode_from, query_mode-mode_from}

pub events_set : IsSet (List EventEnvelope)
events_set = hlevel (hedberg Envelope-discrete)

lt_ne : {o : Ordering} → o ≡ Ordering.lt → o ≡ Ordering.eq → ⊥
lt_ne h k = cc

module _ (key : EventEnvelope → Bytes) where
  All-below :
      (e f : EventEnvelope) (l : List EventEnvelope)
      → compare_bytes (key e) (key f) ≡ Ordering.lt
      → All (λ g. compare_bytes (key f) (key g) ≡ Ordering.lt) l
      → All (λ g. compare_bytes (key e) (key g) ≡ Ordering.lt) l
  All-below e f [] h a = tt
  All-below e f (g ∷ l) h a =
      (compare_bytes_trans (key e) (key f) (key g) h a.0, All-below e f l h a.1)

  insert_event-InKeyOrder :
      (e : EventEnvelope) (l : List EventEnvelope)
      → InKeyOrder key l
      → InKeyOrder key (insert_event key e l)
  unfolding insert_event
  insert_event-InKeyOrder e [] a = (tt, tt)
  insert_event-InKeyOrder e (f ∷ l) a =
      place (insert_event-InKeyOrder e l a.1) (compare_bytes (key e) (key f)) refl
    where
      place :
          InKeyOrder key (insert_event key e l)
          → (o : Ordering) → compare_bytes (key e) (key f) ≡ o
          → InKeyOrder key (elim o [
            | Ordering.lt ↦ e ∷ f ∷ l
            | Ordering.eq ↦ e ∷ l
            | Ordering.gt ↦ f ∷ insert_event key e l
          ])
      place rest Ordering.lt h = ((h, All-below e f l h a.0), a)
      place rest Ordering.eq h = (rw (compare_bytes-eq (key e) (key f) h) a.0, a.1)
      place rest Ordering.gt h = (
        All-insert_event key (λ g. compare_bytes (key f) (key g) ≡ Ordering.lt) e l
            (compare_bytes_swap (key e) (key f) h) a.0,
        rest,
      )

  insert_events-InKeyOrder :
      (es l : List EventEnvelope) → InKeyOrder key l → InKeyOrder key (insert_events key es l)
  unfolding insert_events
  insert_events-InKeyOrder [] l a = a
  insert_events-InKeyOrder (e ∷ es) l a =
      insert_events-InKeyOrder es (insert_event key e l) (insert_event-InKeyOrder e l a)

  pub All-NewTo : (es : List EventEnvelope) → All (λ e. NewTo key [] e) es
  All-NewTo [] = tt
  All-NewTo (e ∷ es) = (tt, All-NewTo es)

  below-NewTo :
      (e : EventEnvelope) (l : List EventEnvelope)
      → All (λ g. compare_bytes (key e) (key g) ≡ Ordering.lt) l
      → NewTo key l e
  below-NewTo e [] a = tt
  below-NewTo e (f ∷ l) a = (
    λ same. lt_ne a.0 (ap (compare_bytes (key e)) (sym same) ∙ compare_bytes_refl (key e)),
    below-NewTo e l a.1,
  )

  InKeyOrder-Distinct : (l : List EventEnvelope) → InKeyOrder key l → Distinct key l
  InKeyOrder-Distinct [] a = tt
  InKeyOrder-Distinct (e ∷ l) a = (below-NewTo e l a.0, InKeyOrder-Distinct l a.1)

  NewTo-eq : (l : List EventEnvelope) {a b : EventEnvelope} → a ≡ b → NewTo key l b → NewTo key l a
  NewTo-eq l e h = rw e h

  Distinct-Perm : {l m : List EventEnvelope} → Permᴰ l m → Distinct key m → Distinct key l
  Distinct-Perm Permᴰ.nil d = tt
  Distinct-Perm (Permᴰ.cons e rest) d = (All-Perm _ rest (rw e d.0), Distinct-Perm rest d.1)
  Distinct-Perm (Permᴰ.swap e e') d = (
    (λ same. d.0.0 (ap key (sym e') ∙ sym same ∙ ap key e), NewTo-eq _ e d.1.0),
    (NewTo-eq _ e' d.0.1, d.1.1),
  )
  Distinct-Perm (Permᴰ.trans first second) d = Distinct-Perm first (Distinct-Perm second d)

  -- Events of different keys, in any order.
  abbrev pub Batch : Type 0
  Batch = (l : List EventEnvelope) × Distinct key l

  abbrev pub SameEvents : Batch → Batch → Type 0
  SameEvents a b = (q : EventEnvelope → Bool) → count q a.0 ≡ count q b.0

  abbrev pub Bag : Type 0
  Bag = Quot SameEvents

  pub sorted : Batch → List EventEnvelope
  sorted a = insert_events key a.0 []

  sorted-InKeyOrder : (a : Batch) → InKeyOrder key (sorted a)
  unfolding sorted
  sorted-InKeyOrder a = insert_events-InKeyOrder a.0 [] tt

  count-sorted : (a : Batch) (q : EventEnvelope → Bool) → count q (sorted a) ≡ count q a.0
  unfolding sorted
  count-sorted a q =
      count-Perm q (rw (append-nil a.0) at (insert_events-Perm key a.0 [] a.1 (All-NewTo a.0)))

  pub sorted-SameEvents : (a b : Batch) → SameEvents a b → sorted a ≡ sorted b
  sorted-SameEvents a b same =
      InKeyOrder-unique key (sorted a) (sorted b) (sorted-InKeyOrder a) (sorted-InKeyOrder b)
        (λ q. count-sorted a q ∙ same q ∙ sym (count-sorted b q))

  -- The ledger of a bag.
  abbrev pub in_order : Bag → List EventEnvelope
  in_order = Quot.lift events_set sorted sorted-SameEvents

module _ {Db Error : Type 0} (p : Platform Db Error) where
  -- What a query answers from a bag.
  abbrev pub answer_of : EventQuery → List EventEnvelope → EventQueryResult
  answer_of query l =
      let limit = unwrap_or query.limit 1000 in
      let events =
        take limit
          (drop (unwrap_or query.offset 0) (matching query (iterated p query.start_time l))) in
      record { events = events; total_count = none; has_more = length events == limit }

  abbrev pub answer : EventQuery → Bag (key_of p) → EventQueryResult
  answer query bag = answer_of query (in_order (key_of p) bag)

module _ {Db Error : Type 0} (p : Platform Db Error) (contents : Db → Table)
    (documented : IsPlatform p contents) where
  -- The order of the appends is forgotten: of a store that was empty, after any operations, none with two
  -- events of one key, the events of those that returned `Ok` have different keys, and any query that
  -- meets no iterator error is answered from the bag of these events alone.
  pub query_events-answer :
      (self : EventStore Db) (operations : List Operation) (query : EventQuery)
      → contents self.db ≡ []
      → DistinctAll p contents documented operations
      → (p.rocks.iterator (perform_all p self operations).db (query_mode p query)).fault ≡ none
      → (distinct : Distinct (key_of p) (recorded p self operations)) × (query_events p
            (perform_all p self operations)
            query
          ≡ ok (answer p query (Quot.mk (recorded p self operations, distinct))))
  query_events-answer self operations query empty apart quiet =
      let after = perform_all p self operations in
      let l = ledger_all p self operations [] in
      let es = recorded p self operations in
      let (held, perm, order) = history p contents documented self operations empty apart in
      let distinct =
        Distinct-Perm (key_of p) (Permᴰ.symm perm) (InKeyOrder-Distinct (key_of p) l order) in
      let same : l ≡ sorted (key_of p) (es, distinct) =
        InKeyOrder-unique (key_of p) l (sorted (key_of p) (es, distinct)) order
          (sorted-InKeyOrder (key_of p) (es, distinct))
          (λ q. count-Perm q perm ∙ sym (count-sorted (key_of p) (es, distinct) q)) in
      (
        distinct,
        query_events_answer p contents documented after query (iterated p query.start_time l) quiet
              (rw (query_mode-mode_from p query)
                (Decodes-mode_from p after query.start_time (contents after.db) l held))
            ∙ ap (λ (m : List EventEnvelope). ok (answer_of p query m)) same,
      )
