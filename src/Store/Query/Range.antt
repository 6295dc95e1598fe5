-- ===== src/Store/Query/Range.antt =====
-- `get_events_in_range` of crates/ledgerfs-event-store/src/store.rs, on a store whose pairs are
-- events under their own keys.
use Prim.Native.Nat.{Ordering}
use mathlib.Core.Path.{subst}
use ledgerfs.Prelude.{
  ◌≡◌, refl, sym, ◌∙◌, ap, Bool, true, false, not, ◌&&◌, none, some, List, [], ◌∷◌, ok, arith, take,
  filter, if◌then◌else◌, take_while, All, Bool-cases, inl, inr,
}
use ledgerfs.Prelude.Int.{pos, ◌≤ℤ◌, ◌<ℤ◌, InI64}
use ledgerfs.Prelude.Bytes.{Bytes, compare_bytes, compare_bytes_trans, compare_bytes_refl}
use ledgerfs.Core.Types.{DateTime, before}
use ledgerfs.Core.Events.{EventEnvelope}
use ledgerfs.Store.Table.{Table, IsSorted, Above, is_below, from_key}
use ledgerfs.Store.Keys.{generate_time_key_prefix}
use ledgerfs.Store.Keys.Order.{
  IsStampable, generate_event_key_lt, is_below-generate_time_key_prefix, is_below_before_epoch,
}
use ledgerfs.Store.Platform.{Platform, IsPlatform}
use ledgerfs.Store.EventStore.{EventStore, EventQuery, decode, key_of}
use ledgerfs.Store.Query.{query_mode, get_events_in_range}
use ledgerfs.Store.Query.Window.{matching}
use ledgerfs.Store.Query.Answer.{Decodes, query_events_answer}

abbrev pub in_range : DateTime → DateTime → EventEnvelope → Bool
in_range start_time end_time e =
    not (before e.timestamp start_time) && not (before end_time e.timestamp)

abbrev since : DateTime → EventEnvelope → Bool
since start_time e = not (before e.timestamp start_time)

-- No event is earlier than one before it.
abbrev pub InTime : List EventEnvelope → Type 0
InTime [] = Unit
InTime (e ∷ es) = All (λ f. e.timestamp ≤ℤ f.timestamp) es × InTime es

abbrev pub range_query : DateTime → DateTime → EventQuery
range_query start_time end_time = record {
  account_id = none;
  start_time = some start_time;
  end_time = some end_time;
  limit = none;
  offset = none;
  event_types = none;
}

pub filter_all : (es : List EventEnvelope) → filter (λ e. true) es ≡ es
filter_all [] = refl
filter_all (e ∷ es) = ap (λ (rest : List EventEnvelope). e ∷ rest) (filter_all es)

filter_past :
    (start_time end_time t : DateTime) (es : List EventEnvelope)
    → end_time <ℤ t
    → All (λ f. t ≤ℤ f.timestamp) es
    → filter (in_range start_time end_time) es ≡ []
filter_past start_time end_time t [] h k = refl
filter_past start_time end_time t (e ∷ es) h k =
    let rest = filter_past start_time end_time t es h k.1 in
    let late : before end_time e.timestamp ≡ true = ground (arith, k.0) in ground arith

-- The loop stops at the first event past the end, and loses none by it.
take_while-filter :
    (start_time end_time : DateTime) (es : List EventEnvelope)
    → InTime es
    → take_while (λ e. not (before end_time e.timestamp)) (filter (since start_time) es)
      ≡ filter (in_range start_time end_time) es
take_while-filter start_time end_time [] h = refl
take_while-filter start_time end_time (e ∷ es) h =
    let rest = take_while-filter start_time end_time es h.1 in
    elim (Bool-cases (before e.timestamp start_time)) [
      | inl early ↦ rw early rest
      | inr begun ↦ rw begun (elim (Bool-cases (before end_time e.timestamp)) [
        | inl late ↦
            rw late (sym (filter_past start_time end_time e.timestamp es (ground arith) h.0))
        | inr on ↦ rw on (ap (λ (xs : List EventEnvelope). e ∷ xs) rest)
      ])
    ]

never_below : {o : Ordering} → o ≡ Ordering.lt → o ≡ Ordering.eq → ⊥
never_below h k = cc

matching-range :
    (start_time end_time : DateTime) (es : List EventEnvelope)
    → InTime es
    → matching (range_query start_time end_time) (filter (since start_time) es)
      ≡ filter (in_range start_time end_time) es
matching-range start_time end_time es h =
    rw filter_all (rw filter_all (take_while-filter start_time end_time es h))

module _ {Db Error : Type 0} (p : Platform Db Error) (contents : Db → Table)
    (documented : IsPlatform p contents) where
  -- The pairs are these events, each under its own key, of times from 1970 on that fit an `i64`.
  abbrev pub Stored : EventStore Db → Table → List EventEnvelope → Type 0
  Stored self [] [] = Unit
  Stored self [] (e ∷ es) = ⊥
  Stored self (entry ∷ t) [] = ⊥
  Stored self ((k, v) ∷ t) (e ∷ es) =
      (k ≡ key_of p e) × IsStampable e.timestamp × (decode p self v ≡ ok e) × Stored self t es

  Decodes-step :
      (self : EventStore Db) (k v : Bytes) (e : EventEnvelope) (t : Table) (es : List EventEnvelope)
      (b c : Bool)
      → b ≡ c
      → decode p self v ≡ ok e
      → Decodes p self t es
      → Decodes p self (if not b then (k, v) ∷ t else t) (if not c then e ∷ es else es)
  Decodes-step self k v e t es true true h d rest = rest
  Decodes-step self k v e t es true false h d rest = cc
  Decodes-step self k v e t es false true h d rest = cc
  Decodes-step self k v e t es false false h d rest = (d, rest)

  Decodes-from_key :
      (self : EventStore Db) (start_time : DateTime) (t : Table) (es : List EventEnvelope)
      → IsStampable start_time
      → Stored self t es
      → Decodes p self
          (from_key (generate_time_key_prefix p.chrono start_time) t)
          (filter (since start_time) es)
  Decodes-from_key self start_time [] [] s h = tt
  Decodes-from_key self start_time [] (e ∷ es) s h = absurd h
  Decodes-from_key self start_time (entry ∷ t) [] s h = absurd h
  Decodes-from_key self start_time ((k, v) ∷ t) (e ∷ es) s (own, stampable, decodes, others) =
      let same : is_below k (generate_time_key_prefix p.chrono start_time)
          ≡ before e.timestamp start_time =
        ap (λ (j : Bytes). is_below j (generate_time_key_prefix p.chrono start_time)) own
        ∙ is_below-generate_time_key_prefix p.chrono documented.is_chrono e start_time stampable
            s in
      Decodes-step self k v e (from_key (generate_time_key_prefix p.chrono start_time) t)
        (filter (since start_time) es) (is_below k (generate_time_key_prefix p.chrono start_time))
        (before e.timestamp start_time) same decodes
        (Decodes-from_key self start_time t es s others)

  in_time_of_keys :
      (e f : EventEnvelope)
      → IsStampable e.timestamp
      → IsStampable f.timestamp
      → compare_bytes (key_of p e) (key_of p f) ≡ Ordering.lt
      → e.timestamp ≤ℤ f.timestamp
  in_time_of_keys e f he hf below = elim (Bool-cases (before f.timestamp e.timestamp)) [
    | inl earlier ↦
        let above = generate_event_key_lt p.chrono documented.is_chrono f e hf he (ground arith) in
        absurd (
          never_below (compare_bytes_trans (key_of p e) (key_of p f) (key_of p e) below above)
            (compare_bytes_refl (key_of p e)))
    | inr not_earlier ↦ ground arith
  ]

  times_of_keys :
      (self : EventStore Db) (e : EventEnvelope) (t : Table) (es : List EventEnvelope)
      → IsStampable e.timestamp
      → Above (key_of p e) t
      → Stored self t es
      → All (λ f. e.timestamp ≤ℤ f.timestamp) es
  times_of_keys self e [] [] s a h = tt
  times_of_keys self e [] (f ∷ es) s a h = absurd h
  times_of_keys self e (entry ∷ t) [] s a h = absurd h
  times_of_keys self e ((k, v) ∷ t) (f ∷ es) s a (own, stampable, decodes, others) =
      let below : compare_bytes (key_of p e) (key_of p f) ≡ Ordering.lt =
        ap (λ (j : Bytes). compare_bytes (key_of p e) j) (sym own) ∙ a.0 in
      (in_time_of_keys e f s stampable below, times_of_keys self e t es s a.1 others)

  pub Stored-InTime :
      (self : EventStore Db) (t : Table) (es : List EventEnvelope)
      → IsSorted t
      → Stored self t es
      → InTime es
  Stored-InTime self [] [] s h = tt
  Stored-InTime self [] (e ∷ es) s h = absurd h
  Stored-InTime self (entry ∷ t) [] s h = absurd h
  Stored-InTime self ((k, v) ∷ t) (e ∷ es) s (own, stampable, decodes, others) =
      let above : Above (key_of p e) t = subst (λ (j : Bytes). Above j t) own s.0 in
      (times_of_keys self e t es stampable above others, Stored-InTime self t es s.1 others)

  -- On a store that holds the events `es` under their own keys, all of times from 1970 on that fit an
  -- `i64`, as the start does, a range query whose iteration meets no error returns the events of the range, both ends included, in their order, but
  -- no more than the first 1000.
  pub get_events_in_range_answer :
      (self : EventStore Db) (start_time end_time : DateTime) (es : List EventEnvelope)
      → Stored self (contents self.db) es
      → IsStampable start_time
      → (p.rocks.iterator self.db (query_mode p (range_query start_time end_time))).fault ≡ none
      → get_events_in_range p self start_time end_time
        ≡ ok (take 1000 (filter (in_range start_time end_time) es))
  unfolding get_events_in_range query_mode
  get_events_in_range_answer self start_time end_time es stored s quiet =
      let query = range_query start_time end_time in
      let decodes = Decodes-from_key self start_time (contents self.db) es s stored in
      let order =
        Stored-InTime self (contents self.db) es (documented.is_rocks.sorted self.db) stored in
      rw
        (query_events_answer p contents documented self query (filter (since start_time) es) quiet
          decodes)
        (ap (λ (xs : List EventEnvelope). ok (take 1000 xs))
          (matching-range start_time end_time es order))

  from_key-none :
      (self : EventStore Db) (start_time : DateTime) (t : Table) (es : List EventEnvelope)
      → start_time <ℤ pos 0
      → InI64 start_time
      → Stored self t es
      → from_key (generate_time_key_prefix p.chrono start_time) t ≡ []
  from_key-none self start_time [] es old fits h = refl
  from_key-none self start_time (entry ∷ t) [] old fits h = absurd h
  from_key-none self start_time ((k, v) ∷ t) (e ∷ es) old fits (own, stampable, decodes, others) =
      let below =
        is_below_before_epoch p.chrono documented.is_chrono e start_time stampable old fits in
      rw own (rw below (from_key-none self start_time t es old fits others))

  -- A range that starts before 1970 is empty, on a store that holds events of times from 1970 on.
  pub get_events_in_range_none :
      (self : EventStore Db) (start_time end_time : DateTime) (es : List EventEnvelope)
      → Stored self (contents self.db) es
      → start_time <ℤ pos 0
      → InI64 start_time
      → (p.rocks.iterator self.db (query_mode p (range_query start_time end_time))).fault ≡ none
      → get_events_in_range p self start_time end_time ≡ ok []
  unfolding get_events_in_range query_mode
  get_events_in_range_none self start_time end_time es stored old fits quiet =
      let none_left = from_key-none self start_time (contents self.db) es old fits stored in
      rw
        (query_events_answer p contents documented self (range_query start_time end_time) [] quiet
          (rw none_left tt))
        refl
