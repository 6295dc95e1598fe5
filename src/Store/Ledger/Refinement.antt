-- ===== src/Store/Ledger/Refinement.antt =====
-- The operations of `EventStore` refine those of the ledger.
use Prim.Native.Nat.{Ordering}
use ledgerfs.Prelude.{◌≡◌, refl, true, false, List, [], ◌∷◌, Result, ok, err, Bool-cases, inl, inr}
use ledgerfs.Prelude.Bytes.{Bytes, compare_bytes}
use ledgerfs.Core.Events.{EventEnvelope}
use ledgerfs.Store.Table.{Entry, Table, insert, insert_all}
use ledgerfs.Store.Codec.{EventSerializer, serialize, deserialize, deserialize-serialize}
use ledgerfs.Store.Platform.{Platform, IsPlatform}
use ledgerfs.Store.EventStore.{EventStoreError, EventStore, key_of}
use ledgerfs.Store.Append.{append_event, append_events, append_events_optimized}
use ledgerfs.Store.Append.Prepared.{Prepared}
use ledgerfs.Store.Append.Laws.{
  OutcomeOf, Appended, append_event_outcome, append_events_outcome, append_events_optimized_outcome,
}
use ledgerfs.Store.Append.History.{
  Operation, single, several, optimized, compaction, perform, perform_all,
}
use ledgerfs.Store.Append.Unchanged.{perform-serializer, compact_keeps}
use ledgerfs.Store.Ledger.{
  insert_event, insert_events, events_of, is_ok, accepted, ledger_after, ledger_all,
}

module _ {Db Error : Type 0} (p : Platform Db Error) where
  -- The pairs of the table are the events of the ledger, each under its own key.
  abbrev pub Kept : EventSerializer → Table → List EventEnvelope → Type 0
  Kept s [] [] = Unit
  Kept s [] (e ∷ l) = ⊥
  Kept s (entry ∷ t) [] = ⊥
  Kept s ((k, v) ∷ t) (e ∷ l) = (k ≡ key_of p e) × (deserialize p.codec s v ≡ ok e) × Kept s t l

  insert-place :
      (s : EventSerializer) (e f : EventEnvelope) (k v w : Bytes) (t : Table)
      (l : List EventEnvelope) (o : Ordering)
      → compare_bytes (key_of p e) (key_of p f) ≡ o
      → k ≡ key_of p f
      → deserialize p.codec s v ≡ ok e
      → deserialize p.codec s w ≡ ok f
      → Kept s t l
      → Kept s (insert (key_of p e) v t) (insert_event (key_of p) e l)
      → Kept s (insert (key_of p e) v ((k, w) ∷ t)) (insert_event (key_of p) e (f ∷ l))
  unfolding insert insert_event
  insert-place s e f k v w t l Ordering.lt h own d c kept rest =
      rw own (rw (h, insert) (rw (h, insert_event) (refl, d, (refl, c, kept))))
  insert-place s e f k v w t l Ordering.eq h own d c kept rest =
      rw own (rw (h, insert) (rw (h, insert_event) (refl, d, kept)))
  insert-place s e f k v w t l Ordering.gt h own d c kept rest =
      rw own (rw (h, insert) (rw (h, insert_event) (refl, c, rest)))

  insert-Kept :
      (s : EventSerializer) (e : EventEnvelope) (v : Bytes) (t : Table) (l : List EventEnvelope)
      → deserialize p.codec s v ≡ ok e
      → Kept s t l
      → Kept s (insert (key_of p e) v t) (insert_event (key_of p) e l)
  insert-Kept s e v [] [] d h = unfold insert insert_event in (refl, d, tt)
  insert-Kept s e v [] (f ∷ l) d h = absurd h
  insert-Kept s e v (entry ∷ t) [] d h = absurd h
  insert-Kept s e v ((k, w) ∷ t) (f ∷ l) d (own, c, kept) =
      insert-place s e f k v w t l (compare_bytes (key_of p e) (key_of p f)) refl own d c kept
        (insert-Kept s e v t l d kept)

  insert_all-Kept :
      (self : EventStore Db) (es : List EventEnvelope) (batch : List Entry) (t : Table)
      (l : List EventEnvelope)
      → ((e : EventEnvelope) (v : Bytes)
          → serialize p.codec self.serializer e ≡ ok v
          → deserialize p.codec self.serializer v ≡ ok e)
      → Prepared p self es batch
      → Kept self.serializer t l
      → Kept self.serializer (insert_all batch t) (insert_events (key_of p) es l)
  unfolding insert_all insert_events
  insert_all-Kept self [] [] t l back b h = h
  insert_all-Kept self [] (entry ∷ batch) t l back b h = absurd b
  insert_all-Kept self (e ∷ es) [] t l back b h = absurd b
  insert_all-Kept self (e ∷ es) ((k, v) ∷ batch) t l back (own, absent, coded, others) h = rw own (
      insert_all-Kept self es batch (insert (key_of p e) v t) (insert_event (key_of p) e l) back
        others (insert-Kept self.serializer e v t l (back e v coded) h))

module _ {Db Error : Type 0} (p : Platform Db Error) (contents : Db → Table)
    (documented : IsPlatform p contents) where
  -- What an operation comes to, whichever it is.
  abbrev pub Performed : EventStore Db → Operation → Type 0
  Performed self operation =
      (accepted p self operation ≡ true
        → Appended p contents documented self (events_of operation) (perform p self operation))
      × (accepted p self operation ≡ false
          → contents (perform p self operation).db ≡ contents self.db)

  performed_of :
      {A : Type 0} (self : EventStore Db) (es : List EventEnvelope)
      (r : Result (EventStoreError Error) A × EventStore Db)
      → OutcomeOf p contents documented self es r
      → (is_ok r.0 ≡ true → Appended p contents documented self es r.1)
        × (is_ok r.0 ≡ false → contents r.1.db ≡ contents self.db)
  performed_of self es (ok a, after) o = (λ h. o.0 a refl, λ h. cc)
  performed_of self es (err e, after) o = (λ h. cc, λ h. o.1 e refl)

  pub perform_outcome : (self : EventStore Db) (operation : Operation) → Performed self operation
  unfolding accepted perform
  perform_outcome self (single envelope) =
      performed_of self (envelope ∷ []) (append_event p self envelope)
        (append_event_outcome p contents documented self envelope)
  perform_outcome self (several envelopes) =
      performed_of self envelopes (append_events p self envelopes)
        (append_events_outcome p contents documented self envelopes)
  perform_outcome self (optimized envelopes elapsed) =
      performed_of self envelopes (append_events_optimized p self envelopes elapsed)
        (append_events_optimized_outcome p contents documented self envelopes elapsed)
  perform_outcome self compaction =
      (λ h. ([], tt, unfold insert_all in compact_keeps p contents documented self), λ h. cc)

  abbrev pub Holds : EventStore Db → List EventEnvelope → Type 0
  Holds self l = Kept p self.serializer (contents self.db) l

  pub perform-Holds :
      (self : EventStore Db) (operation : Operation) (l : List EventEnvelope)
      → Holds self l
      → Holds (perform p self operation) (ledger_after p self operation l)
  perform-Holds self operation l h =
      rw (perform-serializer p self operation) (elim (Bool-cases (accepted p self operation)) [
        | inl good ↦
            let (batch, prepared, held) = (perform_outcome self operation).0 good in
            rw good (
              rw held (
                insert_all-Kept p self (events_of operation) batch (contents self.db) l
                  (λ e v. deserialize-serialize p.codec documented.is_codec self.serializer e v)
                  prepared h))
        | inr bad ↦ rw bad (rw ((perform_outcome self operation).1 bad) h)
      ])

  -- Whatever operations are performed, the store holds the ledger of those that return `Ok`: each
  -- inserts its events by their keys, and one that fails changes nothing.
  pub perform_all-Holds :
      (self : EventStore Db) (operations : List Operation) (l : List EventEnvelope)
      → Holds self l
      → Holds (perform_all p self operations) (ledger_all p self operations l)
  unfolding perform_all ledger_all
  perform_all-Holds self [] l h = h
  perform_all-Holds self (operation ∷ operations) l h =
      perform_all-Holds (perform p self operation) operations (ledger_after p self operation l)
        (perform-Holds self operation l h)
