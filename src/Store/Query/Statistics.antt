-- ===== src/Store/Query/Statistics.antt =====
-- `get_statistics` and `get_latest_events` of crates/ledgerfs-event-store/src/store.rs.
use ledgerfs.Prelude.{
  ℕ, ◌+◌, ◌≡◌, refl, ◌∙◌, ap, Option, none, some, List, [], ◌∷◌, ok, arith, length, All, Bool-cases,
  inl, inr, ◌⊎◌,
}
use ledgerfs.Prelude.Int.{◌≤ℤ◌}
use ledgerfs.Core.Types.{DateTime, before}
use ledgerfs.Core.Events.{EventEnvelope}
use ledgerfs.Store.Table.{Table, Entry}
use ledgerfs.Store.Rocks.{start}
use ledgerfs.Store.Platform.{Platform, IsPlatform}
use ledgerfs.Store.EventStore.{EventStore, EventStoreStatistics}
use ledgerfs.Store.Query.{accumulate, get_statistics, older, newer}
use ledgerfs.Store.Query.Answer.{Decodes}

-- The time of one of the events.
abbrev pub Occurs : DateTime → List EventEnvelope → Type 0
Occurs t [] = ⊥
Occurs t (e ∷ es) = (t ≡ e.timestamp) ⊎ Occurs t es

-- There are no events, or one of them has this time and none is earlier (later).
abbrev pub IsOldest : Option DateTime → List EventEnvelope → Type 0
IsOldest none es = es ≡ []
IsOldest (some t) es = Occurs t es × All (λ e. t ≤ℤ e.timestamp) es

abbrev pub IsNewest : Option DateTime → List EventEnvelope → Type 0
IsNewest none es = es ≡ []
IsNewest (some t) es = Occurs t es × All (λ e. e.timestamp ≤ℤ t) es

-- The two extremes after a list of events.
abbrev oldest_after : Option DateTime → List EventEnvelope → Option DateTime
oldest_after o [] = o
oldest_after o (e ∷ es) = oldest_after (older o e.timestamp) es

abbrev newest_after : Option DateTime → List EventEnvelope → Option DateTime
newest_after o [] = o
newest_after o (e ∷ es) = newest_after (newer o e.timestamp) es

oldest_from :
    (t : DateTime) (es : List EventEnvelope)
    → (u : DateTime) × (oldest_after (some t) es ≡ some u)
      × (u ≤ℤ t)
      × All (λ e. u ≤ℤ e.timestamp) es
      × ((u ≡ t) ⊎ Occurs u es)
oldest_from t [] = (t, refl, omega arith, tt, inl refl)
oldest_from t (e ∷ es) = elim (Bool-cases (before e.timestamp t)) [
  | inl better ↦
      let (u, a, b, c, d) = oldest_from e.timestamp es in
      (u, rw better a, ground arith, (b, c), elim d [ inl x ↦ inr (inl x) | inr x ↦ inr (inr x) ])
  | inr kept ↦
      let (u, a, b, c, d) = oldest_from t es in
      (u, rw kept a, b, (ground arith, c), elim d [ inl x ↦ inl x | inr x ↦ inr (inr x) ])
]

newest_from :
    (t : DateTime) (es : List EventEnvelope)
    → (u : DateTime) × (newest_after (some t) es ≡ some u)
      × (t ≤ℤ u)
      × All (λ e. e.timestamp ≤ℤ u) es
      × ((u ≡ t) ⊎ Occurs u es)
newest_from t [] = (t, refl, omega arith, tt, inl refl)
newest_from t (e ∷ es) = elim (Bool-cases (before t e.timestamp)) [
  | inl better ↦
      let (u, a, b, c, d) = newest_from e.timestamp es in
      (u, rw better a, ground arith, (b, c), elim d [ inl x ↦ inr (inl x) | inr x ↦ inr (inr x) ])
  | inr kept ↦
      let (u, a, b, c, d) = newest_from t es in
      (u, rw kept a, b, (ground arith, c), elim d [ inl x ↦ inl x | inr x ↦ inr (inr x) ])
]

oldest_after-IsOldest : (es : List EventEnvelope) → IsOldest (oldest_after none es) es
oldest_after-IsOldest [] = refl
oldest_after-IsOldest (e ∷ es) =
    let (u, a, b, c, d) = oldest_from e.timestamp es in rw a (d, (b, c))

newest_after-IsNewest : (es : List EventEnvelope) → IsNewest (newest_after none es) es
newest_after-IsNewest [] = refl
newest_after-IsNewest (e ∷ es) =
    let (u, a, b, c, d) = newest_from e.timestamp es in rw a (d, (b, c))

module _ {Db Error : Type 0} (p : Platform Db Error) where
  accumulate_all :
      (self : EventStore Db) (stats : EventStoreStatistics) (entries : List Entry)
      (es : List EventEnvelope)
      → stats.database_size_bytes ≡ 0
      → Decodes p self entries es
      → accumulate p self stats none entries
        ≡ ok (record {
          total_events = stats.total_events + length es;
          oldest_event = oldest_after stats.oldest_event es;
          newest_event = newest_after stats.newest_event es;
          database_size_bytes = 0;
        })
  unfolding accumulate
  accumulate_all self stats [] [] z h = ground (arith, z)
  accumulate_all self stats [] (e ∷ es) z h = absurd h
  accumulate_all self stats (entry ∷ entries) [] z h = absurd h
  accumulate_all self stats ((k, v) ∷ entries) (e ∷ es) z h = rw h.0 (
      accumulate_all self
        (record {
          total_events = stats.total_events + 1;
          oldest_event = older stats.oldest_event e.timestamp;
          newest_event = newer stats.newest_event e.timestamp;
          database_size_bytes = 0;
        })
        entries es refl h.1
      ∙ ap
          (λ (n : ℕ). ok (record {
            total_events = n;
            oldest_event = oldest_after (older stats.oldest_event e.timestamp) es;
            newest_event = newest_after (newer stats.newest_event e.timestamp) es;
            database_size_bytes = 0;
          }))
          (omega arith))

module _ {Db Error : Type 0} (p : Platform Db Error) (contents : Db → Table)
    (documented : IsPlatform p contents) where
  -- On a store whose pairs decode to the events `es`, statistics whose iteration meets no error count
  -- the events and have the oldest and the newest of their times.
  pub get_statistics_answer :
      (self : EventStore Db) (es : List EventEnvelope)
      → (p.rocks.iterator self.db start).fault ≡ none
      → Decodes p self (contents self.db) es
      → (stats : EventStoreStatistics) × (get_statistics p self ≡ ok stats)
        × (stats.total_events ≡ length es)
        × IsOldest stats.oldest_event es
        × IsNewest stats.newest_event es
  unfolding get_statistics
  get_statistics_answer self es quiet decodes =
      rw (documented.is_rocks.iterator_all self.db start quiet) (
        rw quiet (
          _,
          accumulate_all p self _ (contents self.db) es refl decodes,
          omega arith,
          oldest_after-IsOldest es,
          newest_after-IsNewest es,
        ))
