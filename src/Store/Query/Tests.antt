-- ===== src/Store/Query/Tests.antt =====
-- A query of a store with one event.
use ledgerfs.Prelude.{
  ℕ, ◌<◌, arith, filter, ◌≡◌, refl, none, some, false, ok, [], ◌∷◌, length, ◌==◌, take, drop,
}
use ledgerfs.Store.Codec.{deserialize}
use ledgerfs.Store.Rocks.{in_mode}
use ledgerfs.Store.EventStore.{
  EventStore, EventQuery, EventQueryResult, EventStoreStatistics, key_of, decode, verdict,
}
use ledgerfs.Store.Tests.Memory.{
  Memory, memory, memory-IsPlatform, held, empty_store, first, first_read,
}
use ledgerfs.Store.Query.{query_events, query_mode, get_events_in_range, get_statistics}
use ledgerfs.Store.Query.Statistics.{IsOldest, IsNewest, get_statistics_answer}
use ledgerfs.Prelude.Int.{pos}
use ledgerfs.Store.Keys.Order.{IsStampable}
use ledgerfs.Store.Query.Range.{Stored, in_range, get_events_in_range_answer}
use ledgerfs.Store.Query.Window.{matching}
use ledgerfs.Store.Query.Pages.{read_pages, read_pages_all}
use ledgerfs.Store.Query.Answer.{Decodes, query_events_answer}

abbrev pub stored : EventStore Memory
stored = record empty_store { db = ((key_of memory first, 1 ∷ []) ∷ [], (tt, tt)) }

abbrev pub all_events : EventQuery
all_events = record {
  account_id = none;
  start_time = none;
  end_time = none;
  limit = none;
  offset = none;
  event_types = none;
}

first_decodes : decode memory stored (1 ∷ []) ≡ ok first
unfolding deserialize
first_decodes = rw first_read refl

stored-Decodes :
    Decodes memory stored (in_mode (query_mode memory all_events) (held stored.db)) (first ∷ [])
unfolding query_mode
stored-Decodes = (first_decodes, tt)

query_events_answer_example :
    let events = take 1000 (drop 0 (matching all_events (first ∷ []))) in
    query_events memory stored all_events
    ≡ ok (record { events = events; total_count = none; has_more = length events == 1000 })
query_events_answer_example =
    query_events_answer memory held memory-IsPlatform stored all_events (first ∷ []) refl
      stored-Decodes

read_pages_all_example :
    read_pages memory stored all_events 1 2 0
    ≡ ok (some (drop 0 (matching all_events (first ∷ []))))
unfolding verdict
read_pages_all_example =
    read_pages_all memory held memory-IsPlatform stored all_events (first ∷ []) 1 2 0 refl
      stored-Decodes (omega arith) (omega arith)

abbrev pub stored_result : EventQueryResult
stored_result = record { events = first ∷ []; total_count = none; has_more = false }

pub stored_answer : query_events memory stored all_events ≡ ok stored_result
unfolding verdict
stored_answer =
    query_events_answer memory held memory-IsPlatform stored all_events (first ∷ []) refl
      stored-Decodes

stampable : (n : ℕ) → n < 1000 → IsStampable (pos n)
stampable n h = record { since_epoch = omega arith; in_range = (omega arith, omega arith) }

stored-Stored : Stored memory held memory-IsPlatform stored (held stored.db) (first ∷ [])
stored-Stored = (refl, stampable 300 (omega arith), first_decodes, tt)

get_events_in_range_answer_test :
    get_events_in_range memory stored (pos 100) (pos 500)
    ≡ ok (take 1000 (filter (in_range (pos 100) (pos 500)) (first ∷ [])))
get_events_in_range_answer_test =
    get_events_in_range_answer memory held memory-IsPlatform stored (pos 100) (pos 500) (first ∷ [])
      stored-Stored (stampable 100 (omega arith)) refl

get_statistics_answer_example :
    (stats : EventStoreStatistics) × (get_statistics memory stored ≡ ok stats)
    × (stats.total_events ≡ 1)
    × IsOldest stats.oldest_event (first ∷ [])
    × IsNewest stats.newest_event (first ∷ [])
get_statistics_answer_example =
    get_statistics_answer memory held memory-IsPlatform stored (first ∷ []) refl (first_decodes, tt)
