-- ===== src/Store/Query/Pages.antt =====
-- A client of `query_events` of crates/ledgerfs-event-store/src/store.rs that reads page after page.
use mathlib.Core.List.{append-nil}
use mathlib.Core.Option.{map as map_option}
use ledgerfs.Prelude.{
  ℕ, zero, suc, ◌+◌, ◌≡◌, ◌≤◌, ◌<◌, ap, true, false, Option, none, some, List, [], ◌++◌, ok, ◌>>=◌,
  arith, length, length-take, length-drop, take, drop, take-append-drop, take_all, drop-drop, ◌==◌,
  Bool-cases, inl, inr, if◌then◌else◌,
}
use ledgerfs.Core.Events.{EventEnvelope}
use ledgerfs.Store.Table.{Table}
use ledgerfs.Store.Rocks.{in_mode}
use ledgerfs.Store.Platform.{Platform, IsPlatform}
use ledgerfs.Store.EventStore.{EventStore, EventQuery, Outcome}
use ledgerfs.Store.Query.{query_events, query_mode}
use ledgerfs.Store.Query.Window.{matching}
use ledgerfs.Store.Query.Answer.{Decodes, query_events_answer}

abbrev pub page_of : EventQuery → ℕ → ℕ → EventQuery
page_of query limit offset = record query { limit = some limit; offset = some offset }

page_full : (n limit : ℕ) → (n == limit) ≡ true → n ≡ limit
page_full n limit h = ground arith

page_short : (n limit : ℕ) → (n == limit) ≡ false → n ≤ limit → n < limit
page_short n limit h k = ground arith

module _ {Db Error : Type 0} (p : Platform Db Error) where
  -- The pages from an offset on, as long as `has_more` is set: `none` where it still is after `fuel`
  -- pages.
  pub read_pages : EventStore Db → EventQuery → ℕ → ℕ → ℕ → Outcome p (Option (List EventEnvelope))
  read_pages self query limit zero offset = ok none
  read_pages self query limit (suc fuel) offset =
      let following = read_pages self query limit fuel (offset + limit) in
      do
        page ← query_events p self (page_of query limit offset)
        rest ← if page.has_more then following else ok (some [])
        ok (map_option (λ events. page.events ++ events) rest)

module _ {Db Error : Type 0} (p : Platform Db Error) (contents : Db → Table)
    (documented : IsPlatform p contents) where
  read_pages_next :
      (self : EventStore Db) (query : EventQuery) (limit fuel offset : ℕ) (m : List EventEnvelope)
      → 1 ≤ limit
      → length (drop offset m) < suc fuel
      → (length (take limit (drop offset m)) == limit) ≡ true
      → length (drop (offset + limit) m) < fuel
  read_pages_next self query limit fuel offset m some_room enough full = omega (
    arith,
    page_full (length (take limit (drop offset m))) limit full,
    length-take limit (drop offset m),
    length-drop offset m,
    length-drop (offset + limit) m,
  )

  -- A client that asks for pages of at least one event, the next one as long as `has_more` is set, stops
  -- and has every matching event from its offset on, once and in order, where the
  -- iteration meets no error and the stored values decode. It stops within one page more than
  -- there are such events.
  pub read_pages_all :
      (self : EventStore Db) (query : EventQuery) (es : List EventEnvelope) (limit fuel offset : ℕ)
      → (p.rocks.iterator self.db (query_mode p query)).fault ≡ none
      → Decodes p self (in_mode (query_mode p query) (contents self.db)) es
      → 1 ≤ limit
      → length (drop offset (matching query es)) < fuel
      → read_pages p self query limit fuel offset ≡ ok (some (drop offset (matching query es)))
  unfolding read_pages query_mode
  read_pages_all self query es limit zero offset quiet decodes some_room enough =
      absurd (omega (arith, enough))
  read_pages_all self query es limit (suc fuel) offset quiet decodes some_room enough =
      let m = matching query es in
      let rest = drop offset m in
      let answer =
        query_events_answer p contents documented self (page_of query limit offset) es quiet
          decodes in
      elim (Bool-cases (length (take limit rest) == limit)) [
        | inl full ↦
            let following =
              read_pages_all self query es limit fuel (offset + limit) quiet decodes some_room
                (read_pages_next self query limit fuel offset m some_room enough full) in
            rw answer (
              rw full (
                rw following (
                  rw (drop-drop offset limit m)
                    (ap (λ l. ok (some l)) (take-append-drop limit rest)))))
        | inr short ↦
            let below =
              page_short (length (take limit rest)) limit short
                (omega (arith, length-take limit rest)) in
            let fits : length rest ≤ limit = omega (arith, below, length-take limit rest) in
            rw answer
              (rw short (rw (take_all limit rest fits) (ap (λ l. ok (some l)) (append-nil rest))))
      ]
