-- ===== src/Store/Ledger/Records.antt =====
-- From an empty store, the ledger is the events of the operations that return `Ok`, in the order of
-- their keys.
use Prim.Native.Nat.{Ordering}
use mathlib.Core.List.{Permᴰ, append_assoc}
use mathlib.Core.List.Permᴰ
use mathlib.Core.Path.{subst}
use ledgerfs.Prelude.{
  ◌≡◌, sym, ◌∙◌, ap, false, none, List, [], ◌∷◌, ◌++◌, arith, All, Bool-cases, inl, inr,
}
use ledgerfs.Prelude.Bytes.{Bytes, bytes_eq, compare_bytes, bytes_eq_refl}
use ledgerfs.Core.Events.{EventEnvelope}
use ledgerfs.Store.Table.{Entry, Table, lookup, Above, IsSorted}
use ledgerfs.Store.Codec.{EventSerializer}
use ledgerfs.Store.Platform.{Platform, IsPlatform}
use ledgerfs.Store.EventStore.{EventStore, key_of}
use ledgerfs.Store.Append.Prepared.{Prepared}
use ledgerfs.Store.Append.History.{Operation, perform}
use ledgerfs.Store.Ledger.{insert_events, events_of, accepted, ledger_after, ledger_all, recorded}
use ledgerfs.Store.Ledger.Order.{NewTo, Distinct, insert_events-Perm, All-insert_events}
use ledgerfs.Store.Ledger.Refinement.{Kept, Holds, perform-Holds, perform_outcome}

-- Each event stands before the events of greater keys.
abbrev pub InKeyOrder : (EventEnvelope → Bytes) → List EventEnvelope → Type 0
InKeyOrder key [] = Unit
InKeyOrder key (e ∷ l) = All (λ f. compare_bytes (key e) (key f) ≡ Ordering.lt) l × InKeyOrder key l

lookup-miss : (j v k : Bytes) (t : Table) → lookup k ((j, v) ∷ t) ≡ none → bytes_eq j k ≡ false
unfolding lookup
lookup-miss j v k t h = ground arith

lookup-rest : (j v k : Bytes) (t : Table) → lookup k ((j, v) ∷ t) ≡ none → lookup k t ≡ none
unfolding lookup
lookup-rest j v k t h = ground arith

module _ {Db Error : Type 0} (p : Platform Db Error) where
  Kept-Above :
      (s : EventSerializer) (k : Bytes) (t : Table) (l : List EventEnvelope)
      → Kept p s t l
      → Above k t
      → All (λ f. compare_bytes k (key_of p f) ≡ Ordering.lt) l
  Kept-Above s k [] [] h a = tt
  Kept-Above s k [] (e ∷ l) h a = absurd h
  Kept-Above s k (entry ∷ t) [] h a = absurd h
  Kept-Above s k ((j, v) ∷ t) (e ∷ l) (own, d, h) a =
      (subst (λ (i : Bytes). compare_bytes k i ≡ Ordering.lt) own a.0, Kept-Above s k t l h a.1)

  pub Kept-InKeyOrder :
      (s : EventSerializer) (t : Table) (l : List EventEnvelope)
      → Kept p s t l
      → IsSorted t
      → InKeyOrder (key_of p) l
  Kept-InKeyOrder s [] [] h a = tt
  Kept-InKeyOrder s [] (e ∷ l) h a = absurd h
  Kept-InKeyOrder s (entry ∷ t) [] h a = absurd h
  Kept-InKeyOrder s ((j, v) ∷ t) (e ∷ l) (own, d, h) a = (
    Kept-Above s (key_of p e) t l h (subst (λ (i : Bytes). Above i t) own a.0),
    Kept-InKeyOrder s t l h a.1,
  )

  Kept-NewTo :
      (s : EventSerializer) (e : EventEnvelope) (t : Table) (l : List EventEnvelope)
      → Kept p s t l
      → lookup (key_of p e) t ≡ none
      → NewTo (key_of p) l e
  Kept-NewTo s e [] [] h a = tt
  Kept-NewTo s e [] (f ∷ l) h a = absurd h
  Kept-NewTo s e (entry ∷ t) [] h a = absurd h
  Kept-NewTo s e ((j, v) ∷ t) (f ∷ l) (own, d, h) a =
      let apart : bytes_eq j (key_of p e) ≡ false = lookup-miss j v (key_of p e) t a in
      (
        λ same. cc (apart, own, same, bytes_eq_refl j),
        Kept-NewTo s e t l h (lookup-rest j v (key_of p e) t a),
      )

module _ {Db Error : Type 0} (p : Platform Db Error) (contents : Db → Table)
    (documented : IsPlatform p contents) where
  Prepared-NewTo :
      (self : EventStore Db) (es : List EventEnvelope) (batch : List Entry) (l : List EventEnvelope)
      → Prepared p self es batch
      → Holds p contents documented self l
      → All (λ e. NewTo (key_of p) l e) es
  Prepared-NewTo self [] [] l b h = tt
  Prepared-NewTo self [] (entry ∷ batch) l b h = absurd b
  Prepared-NewTo self (e ∷ es) [] l b h = absurd b
  Prepared-NewTo self (e ∷ es) ((k, v) ∷ batch) l (own, absent, coded, others) h = (
    Kept-NewTo p self.serializer e (contents self.db) l h (
        documented.is_rocks.get_exact self.db (key_of p e) none
          (ap (λ (i : Bytes). p.rocks.get self.db i) (sym own) ∙ absent)),
    Prepared-NewTo self es batch l others h,
  )

  -- No operation carries two events of one key.
  abbrev pub DistinctAll : List Operation → Type 0
  DistinctAll operations = All (λ operation. Distinct (key_of p) (events_of operation)) operations

  pub ledger_all-Perm :
      (self : EventStore Db) (operations : List Operation) (l : List EventEnvelope)
      → DistinctAll operations
      → Holds p contents documented self l
      → Permᴰ (ledger_all p self operations l) (recorded p self operations ++ l)
  unfolding ledger_all recorded
  ledger_all-Perm self [] l d h = Permᴰ.refl l
  ledger_all-Perm self (operation ∷ operations) l d h =
      let self' = perform p self operation in
      let rest = recorded p self' operations in
      let ih =
        ledger_all-Perm self' operations (ledger_after p self operation l) d.1
          (perform-Holds p contents documented self operation l h) in
      elim (Bool-cases (accepted p self operation)) [
        | inl good ↦
            let es = events_of operation in
            let (batch, prepared, held) =
              (perform_outcome p contents documented self operation).0 good in
            let added =
              insert_events-Perm (key_of p) es l d.0 (Prepared-NewTo self es batch l prepared h) in
            let step = rw (good) at ih in
            rw good (
              Permᴰ.trans step (
                Permᴰ.trans (Permᴰ.append_left rest added) (
                  rw (← append_assoc rest es l)
                    (Permᴰ.append_right l (Permᴰ.append_comm rest es)))))
        | inr bad ↦ rw bad (rw bad at ih)
      ]

  pub All-ledger_all :
      (P : EventEnvelope → Type 0) (self : EventStore Db) (operations : List Operation)
      (l : List EventEnvelope)
      → All (λ operation. All P (events_of operation)) operations
      → All P l
      → All P (ledger_all p self operations l)
  unfolding ledger_all
  All-ledger_all P self [] l a h = h
  All-ledger_all P self (operation ∷ operations) l a h =
      elim (Bool-cases (accepted p self operation)) [
        | inl good ↦ rw good (
            All-ledger_all P (perform p self operation) operations
              (insert_events (key_of p) (events_of operation) l) a.1
              (All-insert_events (key_of p) P (events_of operation) l a.0 h))
        | inr bad ↦ rw bad (All-ledger_all P (perform p self operation) operations l a.1 h)
      ]
