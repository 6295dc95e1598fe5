-- ===== src/Store/Query/Answer.antt =====
-- `query_events` of crates/ledgerfs-event-store/src/store.rs against the list of the stored events.
use ledgerfs.Prelude.{
  ℕ, ◌+◌, ◌≤◌, ◌<◌, ◌≡◌, refl, sym, ◌∙◌, ap, false, Option, none, List, [], ◌∷◌, ◌++◌, arith, ok,
  length, take, drop, if◌then◌else◌, Bool-cases, inl, inr, ltb, leb, ltb→lt, leb→le, ◌⊎◌, ◌==◌,
}
use ledgerfs.Store.Rocks.{in_mode}
use ledgerfs.Prelude.Bytes.{Bytes}
use ledgerfs.Core.Events.{EventEnvelope}
use ledgerfs.Store.Table.{Entry, Table}
use ledgerfs.Store.Platform.{Platform, IsPlatform}
use ledgerfs.Store.EventStore.{
  EventStore, EventQuery, Verdict, skip, stop, accept, decode, verdict, unwrap_or,
}
use ledgerfs.Store.Query.{collect, query_mode, query_events}
use ledgerfs.Store.Query.Window.{
  matching, matching-cons, window, window_skip, window_full, window_push, window_start, window_nil,
}

Verdict-cases : (w : Verdict) → (w ≡ skip) ⊎ (w ≡ stop) ⊎ (w ≡ accept)
Verdict-cases skip = inl refl
Verdict-cases stop = inr (inl refl)
Verdict-cases accept = inr (inr refl)

ltb→ge : {a b : ℕ} → ltb a b ≡ false → b ≤ a
ltb→ge h = ground arith

leb→gt : {a b : ℕ} → leb a b ≡ false → b < a
leb→gt h = ground arith

module _ {Db Error : Type 0} (p : Platform Db Error) where
  -- The values of the pairs decode to these events.
  abbrev pub Decodes : EventStore Db → List Entry → List EventEnvelope → Type 0
  Decodes self [] [] = Unit
  Decodes self [] (e ∷ es) = ⊥
  Decodes self (entry ∷ entries) [] = ⊥
  Decodes self ((k, v) ∷ entries) (e ∷ es) = (decode p self v ≡ ok e) × Decodes self entries es

  -- One round of the loop at an envelope that decodes.
  collect-cons :
      (self : EventStore Db) (query : EventQuery) (limit offset count : ℕ)
      (events : List EventEnvelope) (fault : Option Error) (k v : Bytes) (entries : List Entry)
      (e : EventEnvelope)
      → decode p self v ≡ ok e
      → collect p self query limit offset count events fault ((k, v) ∷ entries)
        ≡ elim (verdict query e) [
          | skip ↦ collect p self query limit offset count events fault entries
          | stop ↦ ok events
          | accept ↦
              if ltb count offset
              then collect p self query limit offset (count + 1) events fault entries
              else if leb limit (length events)
              then ok events
              else collect p self query limit offset (count + 1) (events ++ e ∷ []) fault entries
        ]
  unfolding collect
  collect-cons self query limit offset count events fault k v entries e h = rw h refl

  collect-window :
      (self : EventStore Db) (query : EventQuery) (limit offset count : ℕ)
      (events : List EventEnvelope) (entries : List Entry) (es : List EventEnvelope)
      → Decodes self entries es
      → collect p self query limit offset count events none entries
        ≡ ok (window limit offset count events (matching query es))
  collect-window self query limit offset count events [] [] h =
      unfold collect in ap ok (sym (window_nil limit offset count events))
  collect-window self query limit offset count events [] (e ∷ es) h = absurd h
  collect-window self query limit offset count events (entry ∷ entries) [] h = absurd h
  collect-window self query limit offset count events ((k, v) ∷ entries) (e ∷ es) h =
      rw (collect-cons self query limit offset count events none k v entries e h.0) (
        rw matching-cons (elim (Verdict-cases (verdict query e)) [
          | inl skips ↦
              rw skips (collect-window self query limit offset count events entries es h.1)
          | inr (inl stops) ↦ rw stops (ap ok (sym (window_nil limit offset count events)))
          | inr (inr accepts) ↦ rw accepts (elim (Bool-cases (ltb count offset)) [
            | inl c ↦ rw c (
                collect-window self query limit offset (count + 1) events entries es h.1
                ∙ ap ok (
                    sym
                      (window_skip limit offset count events (matching query es) e (ltb→lt _ _ c))))
            | inr c ↦ rw c (elim (Bool-cases (leb limit (length events))) [
              | inl full ↦
                  rw full (ap ok (sym (window_full limit offset count events _ (leb→le _ _ full))))
              | inr room ↦ rw room (
                  collect-window self query limit offset (count + 1) (events ++ e ∷ []) entries es
                    h.1
                  ∙ ap ok (
                      sym (
                        window_push limit offset count events (matching query es) e (ltb→ge c)
                          (leb→gt room))))
            ])
          ])
        ]))

module _ {Db Error : Type 0} (p : Platform Db Error) (contents : Db → Table)
    (documented : IsPlatform p contents) where
  -- A query whose iteration meets no error and whose pairs decode to the events `es` returns the
  -- matching ones of `es`, from the offset on, at most `limit` of them, and says that there may be
  -- more exactly when it returns `limit` events.
  pub query_events_answer :
      (self : EventStore Db) (query : EventQuery) (es : List EventEnvelope)
      → (p.rocks.iterator self.db (query_mode p query)).fault ≡ none
      → Decodes p self (in_mode (query_mode p query) (contents self.db)) es
      → let limit = unwrap_or query.limit 1000 in
        let events = take limit (drop (unwrap_or query.offset 0) (matching query es)) in
        query_events p self query
        ≡ ok (record { events = events; total_count = none; has_more = length events == limit })
  unfolding query_events
  query_events_answer self query es quiet decodes =
      let limit = unwrap_or query.limit 1000 in
      let offset = unwrap_or query.offset 0 in
      let all = documented.is_rocks.iterator_all self.db (query_mode p query) quiet in
      let loop = collect-window p self query limit offset 0 [] _ es decodes in
      rw all (rw quiet (rw loop (rw window_start refl)))
