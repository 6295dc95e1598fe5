-- ===== src/Store/Ledger/Tests.antt =====
-- The ledger of concrete operations on the database in memory.
use mathlib.Core.List.{Permᴰ}
use ledgerfs.Prelude.{
  ℕ, ◌<◌, ◌≡◌, refl, All, false, none, some, List, [], ◌∷◌, ◌++◌, ok, arith, take, drop, filter,
  length, ◌==◌,
}
use ledgerfs.Prelude.Int.{pos, negsuc}
use ledgerfs.Core.Types.{event_id_eq}
use ledgerfs.Core.Events.{EventEnvelope}
use ledgerfs.Store.Codec.{deserialize}
use ledgerfs.Store.Keys.Order.{IsStampable}
use ledgerfs.Store.EventStore.{key_of, event_matches_account}
use ledgerfs.Store.Append.{append_event}
use ledgerfs.Store.Append.History.{Operation, single, optimized, compaction, perform_all}
use ledgerfs.Store.Query.{
  query_events, get_events_in_range, get_event, get_latest_events, get_account_events,
}
use Prim.Native.Nat.{min}
use ledgerfs.Store.Ledger.Latest.{get_latest_events_answer, get_account_events_answer}
use ledgerfs.Store.Query.Range.{InTime, in_range}
use ledgerfs.Store.Tests.Memory.{
  memory, memory-IsPlatform, held, empty_store, account, first_read, first, second, twin,
}
use ledgerfs.Store.Append.Tests.{first_appended, stored}
use ledgerfs.Store.Ledger.{ledger_all, recorded, accepted}
use ledgerfs.Store.Ledger.Refinement.{Holds, perform_all-Holds}
use ledgerfs.Store.Ledger.Records.{InKeyOrder}
use mathlib.Core.Quot
use ledgerfs.Store.Ledger.Order.{Distinct}
use ledgerfs.Store.Ledger.Bags.{answer, query_events-answer}
use ledgerfs.Store.Ledger.Reads.{
  page_query, query_events-perform_all, get_events_in_range-perform_all,
  get_events_in_range_before_epoch,
}
use ledgerfs.Store.Ledger.Lookup.{get_event-append_event}

abbrev pub operations : List Operation
operations = single first ∷ optimized (second ∷ []) 3 ∷ single twin ∷ compaction ∷ []

perform_all-Holds_example :
    Holds memory held memory-IsPlatform
      (perform_all memory empty_store operations)
      (ledger_all memory empty_store operations [])
perform_all-Holds_example =
    perform_all-Holds memory held memory-IsPlatform empty_store operations [] tt

query_events-perform_all_example :
    (l : List EventEnvelope) × Permᴰ l (recorded memory empty_store operations)
    × InKeyOrder (key_of memory) l
    × (query_events memory
          (perform_all memory empty_store operations)
          (page_query (some 10) (some 1))
        ≡ ok (record {
          events = take 10 (drop 1 l);
          total_count = none;
          has_more = length (take 10 (drop 1 l)) == 10;
        }))
query_events-perform_all_example =
    query_events-perform_all memory held memory-IsPlatform empty_store operations 10 1 refl
      ((tt, tt), ((tt, tt), ((tt, tt), (tt, tt)))) refl

query_events-answer_example :
    (distinct : Distinct (key_of memory) (recorded memory empty_store operations)) × (query_events
        memory
        (perform_all memory empty_store operations)
        (page_query none none)
      ≡ ok (
          answer memory
            (page_query none none)
            (Quot.mk (recorded memory empty_store operations, distinct))))
query_events-answer_example =
    query_events-answer memory held memory-IsPlatform empty_store operations (page_query none none)
      refl ((tt, tt), ((tt, tt), ((tt, tt), (tt, tt)))) refl

pub stampable : (n : ℕ) → n < 1000 → IsStampable (pos n)
stampable n h = record { since_epoch = omega arith; in_range = (omega arith, omega arith) }

get_events_in_range-perform_all_example :
    (l : List EventEnvelope) × Permᴰ l (recorded memory empty_store operations)
    × InTime l
    × (get_events_in_range memory (perform_all memory empty_store operations) (pos 100) (pos 500)
        ≡ ok (take 1000 (filter (in_range (pos 100) (pos 500)) l)))
get_events_in_range-perform_all_example =
    get_events_in_range-perform_all memory held memory-IsPlatform empty_store operations (pos 100)
      (pos 500) refl ((tt, tt), ((tt, tt), ((tt, tt), (tt, tt))))
      (
        (stampable 300 (omega arith), tt),
        ((stampable 700 (omega arith), tt), ((stampable 300 (omega arith), tt), (tt, tt))),
      )
      (stampable 100 (omega arith)) refl

get_events_in_range_before_epoch_example :
    get_events_in_range memory (perform_all memory empty_store operations) (negsuc 9) (pos 500)
    ≡ ok []
get_events_in_range_before_epoch_example =
    get_events_in_range_before_epoch memory held memory-IsPlatform empty_store operations (negsuc 9)
      (pos 500) refl ((tt, tt), ((tt, tt), ((tt, tt), (tt, tt))))
      (
        (stampable 300 (omega arith), tt),
        ((stampable 700 (omega arith), tt), ((stampable 300 (omega arith), tt), (tt, tt))),
      )
      (omega arith) (omega arith, omega arith) refl

only_first :
    All
      (λ (f : EventEnvelope). event_id_eq f.event_id first.event_id ≡ false)
      (recorded memory (append_event memory empty_store first).1 (compaction ∷ []) ++ [])
unfolding recorded accepted
only_first = tt

get_event-append_event_example :
    get_event memory
      (perform_all memory (append_event memory empty_store first).1 (compaction ∷ []))
      first.event_id
    ≡ ok (some first)
get_event-append_event_example =
    get_event-append_event memory held memory-IsPlatform empty_store first (compaction ∷ []) [] tt
      first_appended (tt, tt) only_first refl

stored_first : deserialize memory.codec stored.serializer (1 ∷ []) ≡ ok first
unfolding deserialize
stored_first = rw first_read refl

stored-Holds : Holds memory held memory-IsPlatform stored (first ∷ [])
stored-Holds = (refl, stored_first, tt)

get_latest_events_answer_example :
    (older latest : List EventEnvelope) × (first ∷ [] ≡ older ++ latest)
    × (length latest ≡ min 5 1)
    × (get_latest_events memory stored 5 ≡ ok latest)
get_latest_events_answer_example =
    get_latest_events_answer memory held memory-IsPlatform stored (first ∷ []) 5 stored-Holds refl

get_account_events_answer_example :
    get_account_events memory stored account
    ≡ ok (take 1000 (filter (λ (e : EventEnvelope). event_matches_account e account) (first ∷ [])))
get_account_events_answer_example =
    get_account_events_answer memory held memory-IsPlatform stored account (first ∷ []) stored-Holds
      refl
