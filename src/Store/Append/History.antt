-- ===== src/Store/Append/History.antt =====
-- A store over its whole life: any sequence of appends and compactions of
-- crates/ledgerfs-event-store/src/store.rs.
use ledgerfs.Prelude.{
  ℕ, ◌≡◌, refl, none, some, List, [], ◌∷◌, Result, ok, err, Result-cases, inl, inr,
}
use ledgerfs.Prelude.Bytes.{Bytes, bytes_eq_refl}
use ledgerfs.Core.Events.{EventEnvelope}
use ledgerfs.Store.Table.{Table, lookup, insert_all, lookup-insert}
use ledgerfs.Store.Codec.{serialize}
use ledgerfs.Store.Platform.{Platform, IsPlatform}
use ledgerfs.Store.EventStore.{
  EventStoreError, EventStore, AppendResult, key_of, already_exists, write_options,
}
use ledgerfs.Store.Append.{
  prepare_event, prepare_events, put_entry, write_batch, append_event, append_events,
  append_events_optimized, compact,
}
use ledgerfs.Store.Append.Prepared.{prepare_events_of, Prepared-single, Prepared-pair}
use ledgerfs.Store.Append.Laws.{
  Appended, lookup-insert_all-IsFresh, Prepared-IsFresh, OutcomeOf, append_event_outcome,
  append_events_outcome, append_events_optimized_outcome,
}

-- One call of a client; `optimized` has the time that the write takes.
pub data Operation : Type 0 where
  single : EventEnvelope → Operation
  several : List EventEnvelope → Operation
  optimized : List EventEnvelope → ℕ → Operation
  compaction : Operation

module _ {Db Error : Type 0} (p : Platform Db Error) where
  unfoldable pub perform : EventStore Db → Operation → EventStore Db
  perform self (single envelope) = (append_event p self envelope).1
  perform self (several envelopes) = (append_events p self envelopes).1
  perform self (optimized envelopes elapsed) = (append_events_optimized p self envelopes elapsed).1
  perform self compaction = (compact p self).1

  unfoldable pub perform_all : EventStore Db → List Operation → EventStore Db
  perform_all self [] = self
  perform_all self (operation ∷ operations) = perform_all (perform self operation) operations

lookup_single : (k v : Bytes) (t : Table) → lookup k (insert_all ((k, v) ∷ []) t) ≡ some v
unfolding insert_all
lookup_single k v t = rw lookup-insert (rw bytes_eq_refl)

lookup_second :
    (k v w : Bytes) (t : Table) → lookup k (insert_all ((k, v) ∷ (k, w) ∷ []) t) ≡ some w
unfolding insert_all
lookup_second k v w t = rw lookup-insert (rw bytes_eq_refl)

module _ {Db Error : Type 0} (p : Platform Db Error) (contents : Db → Table)
    (documented : IsPlatform p contents) where
  lookup_kept :
      {A : Type 0} (self : EventStore Db) (envelopes : List EventEnvelope)
      (r : Result (EventStoreError Error) A × EventStore Db) (k v : Bytes)
      → OutcomeOf p contents documented self envelopes r
      → lookup k (contents self.db) ≡ some v
      → lookup k (contents r.1.db) ≡ some v
  lookup_kept self envelopes r k v o h = elim (Result-cases r.0) [
    | inl (a, e) ↦
        let (batch, prepared, held) = o.0 a e in
        rw held (
          lookup-insert_all-IsFresh (contents self.db) batch k v
            (Prepared-IsFresh p contents documented self envelopes batch prepared) h)
    | inr (x, e) ↦ rw (o.1 x e) h
  ]

  perform_kept :
      (self : EventStore Db) (operation : Operation) (k v : Bytes)
      → lookup k (contents self.db) ≡ some v
      → lookup k (contents (perform p self operation).db) ≡ some v
  unfolding perform
  perform_kept self (single envelope) k v h =
      lookup_kept self (envelope ∷ []) (append_event p self envelope) k v
        (append_event_outcome p contents documented self envelope) h
  perform_kept self (several envelopes) k v h =
      lookup_kept self envelopes (append_events p self envelopes) k v
        (append_events_outcome p contents documented self envelopes) h
  perform_kept self (optimized envelopes elapsed) k v h =
      lookup_kept self envelopes (append_events_optimized p self envelopes elapsed) k v
        (append_events_optimized_outcome p contents documented self envelopes elapsed) h
  perform_kept self compaction k v h =
      unfold compact in rw (documented.is_rocks.compact_keeps self.db) h

  -- Whatever is appended, refused or compacted later, a stored pair is kept with its value.
  pub perform_all-append_only :
      (self : EventStore Db) (operations : List Operation) (k v : Bytes)
      → lookup k (contents self.db) ≡ some v
      → lookup k (contents (perform_all p self operations).db) ≡ some v
  unfolding perform_all
  perform_all-append_only self [] k v h = h
  perform_all-append_only self (operation ∷ operations) k v h =
      perform_all-append_only (perform p self operation) operations k v
        (perform_kept self operation k v h)

  -- An event that was appended can be read back under its key ever after.
  pub lookup-append_event :
      (self : EventStore Db) (envelope : EventEnvelope) (operations : List Operation)
      → (append_event p self envelope).0 ≡ ok tt
      → (v : Bytes) × (serialize p.codec self.serializer envelope ≡ ok v)
        × (lookup
              (key_of p envelope)
              (contents (perform_all p (append_event p self envelope).1 operations).db)
            ≡ some v)
  lookup-append_event self envelope operations h =
      let (batch, prepared, held) =
        (append_event_outcome p contents documented self envelope).0 tt h in
      let (v, only, coded) = Prepared-single p self envelope batch prepared in
      (
        v,
        coded,
        perform_all-append_only (append_event p self envelope).1 operations (key_of p envelope) v
            (rw held (rw only (lookup_single (key_of p envelope) v (contents self.db)))),
      )

  append_events-pair :
      (self : EventStore Db) (a b : EventEnvelope) (v w : Bytes)
      → p.rocks.get self.db (key_of p a) ≡ ok none
      → p.rocks.get self.db (key_of p b) ≡ ok none
      → serialize p.codec self.serializer a ≡ ok v
      → serialize p.codec self.serializer b ≡ ok w
      → (p.rocks.write_opt self.db
          ((key_of p a, v) ∷ (key_of p b, w) ∷ [])
          (write_options p self)).0
        ≡ ok tt
      → (append_events p self (a ∷ b ∷ [])).0 ≡ ok tt
  unfolding append_events prepare_events prepare_event write_batch
  append_events-pair self a b v w absent absent' first second good =
      rw absent (rw first (rw absent' (rw second (rw good refl))))

  second_stored :
      (self : EventStore Db) (a b : EventEnvelope)
      → key_of p a ≡ key_of p b
      → (append_events p self (a ∷ b ∷ [])).0 ≡ ok tt
      → (v : Bytes) × (serialize p.codec self.serializer b ≡ ok v)
        × (lookup (key_of p a) (contents (append_events p self (a ∷ b ∷ [])).1.db) ≡ some v)
  second_stored self a b same h =
      let (batch, prepared, held) =
        (append_events_outcome p contents documented self (a ∷ b ∷ [])).0 tt h in
      let (v, w, both, coded) = Prepared-pair p self a b batch prepared in
      (w, coded, rw held (rw both (rw same (lookup_second (key_of p b) v w (contents self.db)))))

  -- Two events of one batch with one key: where the database reads the key as absent, both events are
  -- encoded and the write of the batch succeeds, the append returns `Ok` and leaves the encoding of
  -- the second event under the key.
  pub append_events_same_key :
      (self : EventStore Db) (a b : EventEnvelope) (v w : Bytes)
      → key_of p a ≡ key_of p b
      → p.rocks.get self.db (key_of p a) ≡ ok none
      → serialize p.codec self.serializer a ≡ ok v
      → serialize p.codec self.serializer b ≡ ok w
      → (p.rocks.write_opt self.db
          ((key_of p a, v) ∷ (key_of p b, w) ∷ [])
          (write_options p self)).0
        ≡ ok tt
      → ((append_events p self (a ∷ b ∷ [])).0 ≡ ok tt)
        × (lookup (key_of p a) (contents (append_events p self (a ∷ b ∷ [])).1.db) ≡ some w)
  append_events_same_key self a b v w same absent first second good =
      let fine = append_events-pair self a b v w absent (rw same at absent) first second good in
      let (u, coded, held) = second_stored self a b same fine in (fine, cc)

  -- Where the database reads an event's key as present, the append is refused.
  pub append_event_refuses :
      (self : EventStore Db) (envelope : EventEnvelope) (v : Bytes)
      → p.rocks.get self.db (key_of p envelope) ≡ ok (some v)
      → append_event p self envelope ≡ (err (already_exists p (key_of p envelope)), self)
  unfolding append_event prepare_event put_entry
  append_event_refuses self envelope v h = rw h

  -- `append_events` that returns `Ok` found every event absent, and the table holds the encodings
  -- of all of them besides what it held.
  pub append_events_all :
      (self : EventStore Db) (envelopes : List EventEnvelope)
      → (append_events p self envelopes).0 ≡ ok tt
      → Appended p contents documented self envelopes (append_events p self envelopes).1
  append_events_all self envelopes h =
      (append_events_outcome p contents documented self envelopes).0 tt h

  -- `append_events` that fails, for whatever reason and at whatever event, has stored nothing.
  pub append_events_nothing :
      (self : EventStore Db) (envelopes : List EventEnvelope) (e : EventStoreError Error)
      → (append_events p self envelopes).0 ≡ err e
      → contents (append_events p self envelopes).1.db ≡ contents self.db
  append_events_nothing self envelopes e h =
      (append_events_outcome p contents documented self envelopes).1 e h

  -- `append_events_optimized` that fails has stored nothing.
  pub append_events_optimized_nothing :
      (self : EventStore Db) (envelopes : List EventEnvelope) (elapsed : ℕ)
      (e : EventStoreError Error)
      → (append_events_optimized p self envelopes elapsed).0 ≡ err e
      → contents (append_events_optimized p self envelopes elapsed).1.db ≡ contents self.db
  append_events_optimized_nothing self envelopes elapsed e h =
      (append_events_optimized_outcome p contents documented self envelopes elapsed).1 e h

  -- Where both batched appends return `Ok`, they leave the same contents.
  pub append_events_optimized_same :
      (self : EventStore Db) (envelopes : List EventEnvelope) (elapsed : ℕ) (r : AppendResult)
      → (append_events p self envelopes).0 ≡ ok tt
      → (append_events_optimized p self envelopes elapsed).0 ≡ ok r
      → contents (append_events_optimized p self envelopes elapsed).1.db
        ≡ contents (append_events p self envelopes).1.db
  append_events_optimized_same self envelopes elapsed r h k =
      let (b, pb, hb) = (append_events_outcome p contents documented self envelopes).0 tt h in
      let (c, pc, hc) =
        (append_events_optimized_outcome p contents documented self envelopes elapsed).0 r k in
      cc (prepare_events_of p self envelopes b pb, prepare_events_of p self envelopes c pc, hb, hc)
