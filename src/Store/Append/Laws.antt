-- ===== src/Store/Append/Laws.antt =====
-- The store is append-only: what an append of crates/ledgerfs-event-store/src/store.rs may change.
use ledgerfs.Prelude.{
  ℕ, ◌≡◌, refl, ◌∙◌, ◌≢◌, none, some, List, [], ◌∷◌, Result, ok, err, arith, All,
}
use ledgerfs.Prelude.Bytes.{Bytes}
use ledgerfs.Core.Events.{EventEnvelope}
use ledgerfs.Store.Table.{Entry, Table, lookup, insert_all, lookup-insert_all_ne}
use ledgerfs.Store.Platform.{Platform, IsPlatform}
use ledgerfs.Store.EventStore.{EventStoreError, EventStore, written, write_options}
use ledgerfs.Store.Append.{
  prepare_event, put_entry, append_event, prepare_events, write_batch, append_events,
  prepare_optimized, write_optimized, append_events_optimized, optimized_options,
}
use ledgerfs.Store.Append.Prepared.{
  Prepared, prepare_event-ok, prepare_events-ok, prepare_optimized-prepare_events,
}

-- The keys of a batch are not in the table.
abbrev pub IsFresh : Table → List Entry → Type 0
IsFresh t batch = All (λ e. lookup e.0 t ≡ none) batch

fresh-ne :
    (t : Table) (batch : List Entry) (j v : Bytes)
    → IsFresh t batch
    → lookup j t ≡ some v
    → All (λ e. e.0 ≢ j) batch
fresh-ne t [] j v f h = tt
fresh-ne t ((k, w) ∷ batch) j v f h = (λ e. cc (e, f.0, h), fresh-ne t batch j v f.1 h)

pub lookup-insert_all-IsFresh :
    (t : Table) (batch : List Entry) (j v : Bytes)
    → IsFresh t batch
    → lookup j t ≡ some v
    → lookup j (insert_all batch t) ≡ some v
lookup-insert_all-IsFresh t batch j v f h =
    lookup-insert_all_ne batch j t (fresh-ne t batch j v f h) ∙ h

written-ok :
    {Db Error A : Type 0} (p : Platform Db Error) (self : EventStore Db) (a b : A)
    (r : Result Error (Unit {0}) × Db)
    → (written p self a r).0 ≡ ok b
    → r.0 ≡ ok tt
written-ok p self a b r h = ground arith

written-err :
    {Db Error A : Type 0} (p : Platform Db Error) (self : EventStore Db) (a : A)
    (e : EventStoreError Error) (r : Result Error (Unit {0}) × Db)
    → (written p self a r).0 ≡ err e
    → (d : Error) × (r.0 ≡ err d)
written-err p self a e r h = ground arith

module _ {Db Error : Type 0} (p : Platform Db Error) (contents : Db → Table)
    (documented : IsPlatform p contents) where
  pub Prepared-IsFresh :
      (self : EventStore Db) (envelopes : List EventEnvelope) (batch : List Entry)
      → Prepared p self envelopes batch
      → IsFresh (contents self.db) batch
  Prepared-IsFresh self [] [] h = tt
  Prepared-IsFresh self [] (entry ∷ batch) h = absurd h
  Prepared-IsFresh self (envelope ∷ envelopes) [] h = absurd h
  Prepared-IsFresh self (envelope ∷ envelopes) (entry ∷ batch) h = (
    documented.is_rocks.get_exact self.db entry.0 none h.1,
    Prepared-IsFresh self envelopes batch h.3,
  )

  -- What an append that returns `Ok` has done: every event was absent, and the table holds the
  -- batch of their encodings besides what it held.
  abbrev pub Appended : EventStore Db → List EventEnvelope → EventStore Db → Type 0
  Appended self envelopes self' =
      (batch : List Entry) × Prepared p self envelopes batch
      × (contents self'.db ≡ insert_all batch (contents self.db))

  -- Both halves of an append: what `Ok` means, and that an error leaves the contents.
  abbrev pub OutcomeOf :
      {A : Type 0}
      → EventStore Db
      → List EventEnvelope
      → Result (EventStoreError Error) A × EventStore Db
      → Type 0
  OutcomeOf {A} self envelopes r =
      ((a : A) → r.0 ≡ ok a → Appended self envelopes r.1)
      × ((e : EventStoreError Error) → r.0 ≡ err e → contents r.1.db ≡ contents self.db)

  put_entry_outcome :
      (self : EventStore Db) (envelope : EventEnvelope) (r : Result (EventStoreError Error) Entry)
      → prepare_event p self envelope ≡ r
      → OutcomeOf self (envelope ∷ []) (put_entry p self r)
  unfolding put_entry
  put_entry_outcome self envelope (err e) h = (λ a k. cc, λ f k. refl)
  put_entry_outcome self envelope (ok (key, value)) h =
      let r = p.rocks.put_opt self.db key value (write_options p self) in
      (
        λ a k. (
          (key, value) ∷ [],
          prepare_event-ok p self envelope (key, value) h,
          unfold insert_all in
              documented.is_rocks.put_ok self.db key value _ (written-ok p self tt a r k),
        ),
        λ e k.
            let (d, hd) = written-err p self tt e r k in
            documented.is_rocks.put_err self.db key value _ d hd,
      )

  write_batch_outcome :
      (self : EventStore Db) (envelopes : List EventEnvelope)
      (r : Result (EventStoreError Error) (List Entry))
      → prepare_events p self envelopes ≡ r
      → OutcomeOf self envelopes (write_batch p self r)
  unfolding write_batch
  write_batch_outcome self envelopes (err e) h = (λ a k. cc, λ f k. refl)
  write_batch_outcome self envelopes (ok batch) h =
      let r = p.rocks.write_opt self.db batch (write_options p self) in
      (
        λ a k. (
          batch,
          prepare_events-ok p self envelopes batch h,
          documented.is_rocks.write_ok self.db batch _ (written-ok p self tt a r k),
        ),
        λ e k.
            let (d, hd) = written-err p self tt e r k in
            documented.is_rocks.write_err self.db batch _ d hd,
      )

  write_optimized_outcome :
      (self : EventStore Db) (envelopes : List EventEnvelope) (elapsed : ℕ)
      (r : Result (EventStoreError Error) (List Entry × ℕ))
      → prepare_optimized p self envelopes ≡ r
      → OutcomeOf self envelopes (write_optimized p self envelopes elapsed r)
  unfolding write_optimized
  write_optimized_outcome self envelopes elapsed (err e) h = (λ a k. cc, λ f k. refl)
  write_optimized_outcome self envelopes elapsed (ok (batch, bytes)) h =
      let w = optimized_options p self envelopes in
      let r = p.rocks.write_opt self.db batch w in
      (
        λ a k. (
          batch,
          prepare_events-ok p self envelopes batch
              ((prepare_optimized-prepare_events p self envelopes batch bytes).0 h).0,
          documented.is_rocks.write_ok self.db batch w (written-ok p self _ a r k),
        ),
        λ e k.
            let (d, hd) = written-err p self _ e r k in
            documented.is_rocks.write_err self.db batch w d hd,
      )

  -- A single append that returns `Ok` has appended its event; one that fails has changed nothing.
  pub append_event_outcome :
      (self : EventStore Db) (envelope : EventEnvelope)
      → OutcomeOf self (envelope ∷ []) (append_event p self envelope)
  unfolding append_event
  append_event_outcome self envelope =
      put_entry_outcome self envelope (prepare_event p self envelope) refl

  -- `append_events` appends all of its events or changes nothing.
  pub append_events_outcome :
      (self : EventStore Db) (envelopes : List EventEnvelope)
      → OutcomeOf self envelopes (append_events p self envelopes)
  unfolding append_events
  append_events_outcome self [] = (λ a k. ([], tt, unfold insert_all in refl), λ e k. refl)
  append_events_outcome self (envelope ∷ envelopes) =
      write_batch_outcome self (envelope ∷ envelopes) _ refl

  -- `append_events_optimized` appends all of its events or changes nothing.
  pub append_events_optimized_outcome :
      (self : EventStore Db) (envelopes : List EventEnvelope) (elapsed : ℕ)
      → OutcomeOf self envelopes (append_events_optimized p self envelopes elapsed)
  unfolding append_events_optimized
  append_events_optimized_outcome self [] elapsed =
      (λ a k. ([], tt, unfold insert_all in refl), λ e k. refl)
  append_events_optimized_outcome self (envelope ∷ envelopes) elapsed =
      write_optimized_outcome self (envelope ∷ envelopes) elapsed _ refl
