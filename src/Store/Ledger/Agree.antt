-- ===== src/Store/Ledger/Agree.antt =====
-- Stores that hold the same ledger answer the queries of crates/ledgerfs-event-store/src/store.rs
-- alike, whatever their databases, compression and settings.
use ledgerfs.Prelude.{
  refl, ◌≡◌, sym, ◌∙◌, Option, none, some, List, [], ◌∷◌, filter, not, Bool-cases, inl, inr,
}
use ledgerfs.Prelude.Bytes.{Bytes}
use ledgerfs.Core.Types.{DateTime}
use ledgerfs.Core.Events.{EventEnvelope}
use ledgerfs.Store.Table.{Table, from_key, is_below}
use ledgerfs.Store.Keys.{generate_time_key_prefix}
use ledgerfs.Store.Rocks.{IteratorMode, start, from_forward, in_mode}
use ledgerfs.Store.Codec.{EventSerializer}
use ledgerfs.Store.Platform.{Platform, IsPlatform}
use ledgerfs.Store.EventStore.{EventStore, EventQuery, key_of}
use ledgerfs.Store.Query.{query_events, query_mode}
use ledgerfs.Store.Query.Answer.{Decodes, query_events_answer}
use ledgerfs.Store.Ledger.Refinement.{Kept, Holds}
use ledgerfs.Store.Ledger.Reads.{Kept-Decodes}

module _ {Db Error : Type 0} (p : Platform Db Error) where
  -- The events of the ledger whose keys are not below the key.
  abbrev pub from_event : Bytes → List EventEnvelope → List EventEnvelope
  from_event k l = filter (λ e. not (is_below (key_of p e) k)) l

  Kept-from_key :
      (s : EventSerializer) (k : Bytes) (t : Table) (l : List EventEnvelope)
      → Kept p s t l
      → Kept p s (from_key k t) (from_event k l)
  Kept-from_key s k [] [] h = tt
  Kept-from_key s k [] (e ∷ l) h = absurd h
  Kept-from_key s k (entry ∷ t) [] h = absurd h
  Kept-from_key s k ((j, v) ∷ t) (e ∷ l) (own, d, h) = elim (Bool-cases (is_below (key_of p e) k)) [
    | inl low ↦ rw own (rw low (Kept-from_key s k t l h))
    | inr high ↦ rw own (rw high (refl, d, Kept-from_key s k t l h))
  ]

  -- What the iteration of a query passes over.
  abbrev pub iterated : Option DateTime → List EventEnvelope → List EventEnvelope
  iterated none l = l
  iterated (some start_time) l = from_event (generate_time_key_prefix p.chrono start_time) l

  abbrev pub mode_from : Option DateTime → IteratorMode
  mode_from none = start
  mode_from (some start_time) = from_forward (generate_time_key_prefix p.chrono start_time)

  pub Decodes-mode_from :
      (self : EventStore Db) (start_time : Option DateTime) (t : Table) (l : List EventEnvelope)
      → Kept p self.serializer t l
      → Decodes p self (in_mode (mode_from start_time) t) (iterated start_time l)
  Decodes-mode_from self none t l h = Kept-Decodes p self t l h
  Decodes-mode_from self (some start_time) t l h =
      let k = generate_time_key_prefix p.chrono start_time in
      Kept-Decodes p self (from_key k t) (from_event k l) (Kept-from_key self.serializer k t l h)

  pub query_mode-mode_from : (query : EventQuery) → query_mode p query ≡ mode_from query.start_time
  unfolding query_mode
  query_mode-mode_from query =
      elim (query.start_time)
        as (λ o.
          elim o [
            | none ↦ start
            | some start_time ↦ from_forward (generate_time_key_prefix p.chrono start_time)
          ]
          ≡ mode_from o) [ none ↦ refl | some start_time ↦ refl ]

module _ {Db Error : Type 0} (p : Platform Db Error) (contents : Db → Table)
    (documented : IsPlatform p contents) where
  -- Two stores that hold one ledger give one answer to any query that meets no iterator error.
  pub query_events-agree :
      (self other : EventStore Db) (l : List EventEnvelope) (query : EventQuery)
      → Holds p contents documented self l
      → Holds p contents documented other l
      → (p.rocks.iterator self.db (query_mode p query)).fault ≡ none
      → (p.rocks.iterator other.db (query_mode p query)).fault ≡ none
      → query_events p self query ≡ query_events p other query
  query_events-agree self other l query held held' quiet quiet' =
      let es = iterated p query.start_time l in
      let mode = query_mode-mode_from p query in
      let answer =
        query_events_answer p contents documented self query es quiet
          (rw mode (Decodes-mode_from p self query.start_time (contents self.db) l held)) in
      let answer' =
        query_events_answer p contents documented other query es quiet'
          (rw mode (Decodes-mode_from p other query.start_time (contents other.db) l held')) in
      answer ∙ sym answer'
