-- ===== src/Store/Append/Tests.antt =====
-- Appends at concrete events, over the database in memory.
use ledgerfs.Prelude.{◌≡◌, refl, ◌↔◌, some, [], ◌∷◌, ok, err, ap}
use ledgerfs.Prelude.Bytes.{Bytes, bytes_eq}
use ledgerfs.Store.Table.{lookup}
use ledgerfs.Store.Keys.{generate_event_key, be_bytes}
use ledgerfs.Store.Codec.{serialize}
use ledgerfs.Store.EventStore.{EventStore, AppendResult, key_of, already_exists}
use ledgerfs.Store.Tests.Memory.{
  Memory, memory, memory-IsPlatform, held, empty_store, first, second, twin, first_written,
  twin_written, second_written,
}
use ledgerfs.Store.Append.{
  prepare_event, put_entry, append_event, prepare_events, write_batch, append_events,
  prepare_optimized, check_all, encode_all, write_optimized, append_events_optimized,
}
use ledgerfs.Store.Append.Prepared.{prepare_optimized-prepare_events, batch_bytes}
use ledgerfs.Store.Append.Laws.{Appended}
use ledgerfs.Store.Append.History.{
  single, several, optimized, compaction, perform_all, perform_all-append_only, lookup-append_event,
  append_events_all, append_events_nothing, append_events_optimized_nothing,
  append_events_optimized_same, append_events_same_key, append_event_refuses,
}

pub first_appended : (append_event memory empty_store first).0 ≡ ok tt
unfolding append_event prepare_event put_entry serialize lookup generate_event_key be_bytes
first_appended = rw first_written refl

pub pair_appended : (append_events memory empty_store (first ∷ twin ∷ [])).0 ≡ ok tt
unfolding append_events prepare_events write_batch prepare_event serialize lookup generate_event_key
    be_bytes
pair_appended = rw first_written (rw twin_written refl)

-- A store that holds `first`.
abbrev pub stored : EventStore Memory
stored = record empty_store { db = ((key_of memory first, 1 ∷ []) ∷ [], (tt, tt)) }

pub stored_first : lookup (key_of memory first) (held stored.db) ≡ some (1 ∷ [])
unfolding lookup generate_event_key be_bytes bytes_eq
stored_first = refl

perform_all-append_only_example :
    lookup
      (key_of memory first)
      (held (perform_all memory stored (single first ∷ several (second ∷ []) ∷ compaction ∷ [])).db)
    ≡ some (1 ∷ [])
perform_all-append_only_example =
    perform_all-append_only memory held memory-IsPlatform stored
      (single first ∷ several (second ∷ []) ∷ compaction ∷ []) (key_of memory first) (1 ∷ [])
      stored_first

lookup-append_event_test :
    (v : Bytes) × (serialize memory.codec empty_store.serializer first ≡ ok v)
    × (lookup (key_of memory first) (
          held
            (perform_all memory
              (append_event memory empty_store first).1
              (optimized (second ∷ []) 3 ∷ [])).db)
        ≡ some v)
lookup-append_event_test =
    lookup-append_event memory held memory-IsPlatform empty_store first
      (optimized (second ∷ []) 3 ∷ []) first_appended

append_events_all_test :
    Appended memory held memory-IsPlatform empty_store
      (first ∷ twin ∷ [])
      (append_events memory empty_store (first ∷ twin ∷ [])).1
append_events_all_test =
    append_events_all memory held memory-IsPlatform empty_store (first ∷ twin ∷ []) pair_appended

append_events_same_key_example :
    ((append_events memory empty_store (first ∷ twin ∷ [])).0 ≡ ok tt)
    × (lookup
          (key_of memory first)
          (held (append_events memory empty_store (first ∷ twin ∷ [])).1.db)
        ≡ some (3 ∷ []))
unfolding generate_event_key serialize lookup
append_events_same_key_example =
    append_events_same_key memory held memory-IsPlatform empty_store first twin (1 ∷ []) (3 ∷ [])
      refl refl (rw first_written refl) (rw twin_written refl) refl

pub refused :
    (append_events memory stored (first ∷ [])).0 ≡ err (already_exists memory (key_of memory first))
unfolding append_events prepare_events write_batch prepare_event lookup generate_event_key be_bytes
    bytes_eq
refused = refl

append_events_nothing_test : held (append_events memory stored (first ∷ [])).1.db ≡ held stored.db
append_events_nothing_test =
    append_events_nothing memory held memory-IsPlatform stored (first ∷ []) _ refused

refused_optimized :
    (append_events_optimized memory stored (first ∷ []) 3).0
    ≡ err (already_exists memory (key_of memory first))
unfolding append_events_optimized prepare_optimized check_all write_optimized lookup
    generate_event_key be_bytes bytes_eq
refused_optimized = refl

append_events_optimized_nothing_test :
    held (append_events_optimized memory stored (first ∷ []) 3).1.db ≡ held stored.db
append_events_optimized_nothing_test =
    append_events_optimized_nothing memory held memory-IsPlatform stored (first ∷ []) 3 _
      refused_optimized

append_event_refuses_test :
    append_event memory stored first ≡ (err (already_exists memory (key_of memory first)), stored)
append_event_refuses_test =
    append_event_refuses memory held memory-IsPlatform stored first (1 ∷ []) (ap ok stored_first)

abbrev three_milliseconds : AppendResult
three_milliseconds = record { events_written = 2; bytes_written = 20; write_duration = 3 }

pair_optimized :
    (append_events_optimized memory empty_store (first ∷ twin ∷ []) 3).0 ≡ ok three_milliseconds
unfolding append_events_optimized prepare_optimized check_all encode_all write_optimized serialize
    lookup generate_event_key be_bytes
pair_optimized = rw first_written (rw twin_written refl)

append_events_optimized_same_test :
    held (append_events_optimized memory empty_store (first ∷ twin ∷ []) 3).1.db
    ≡ held (append_events memory empty_store (first ∷ twin ∷ [])).1.db
append_events_optimized_same_test =
    append_events_optimized_same memory held memory-IsPlatform empty_store (first ∷ twin ∷ []) 3
      three_milliseconds pair_appended pair_optimized

prepare_optimized-prepare_events_example :
    (prepare_optimized memory empty_store (first ∷ [])
      ≡ ok ((key_of memory first, 1 ∷ []) ∷ [], 10))
    ↔ ((prepare_events memory empty_store (first ∷ []) ≡ ok ((key_of memory first, 1 ∷ []) ∷ []))
        × ((10) ≡ batch_bytes ((key_of memory first, 1 ∷ []) ∷ [])))
prepare_optimized-prepare_events_example =
    prepare_optimized-prepare_events memory empty_store (first ∷ [])
      ((key_of memory first, 1 ∷ []) ∷ []) 10

pub both_appended :
    (append_events_optimized memory empty_store (first ∷ second ∷ []) 5).0
    ≡ ok (record { events_written = 2; bytes_written = 20; write_duration = 5 })
unfolding append_events_optimized prepare_optimized check_all encode_all write_optimized serialize
    lookup generate_event_key be_bytes
both_appended = rw first_written (rw second_written refl)

pub turned_appended : (append_events memory empty_store (second ∷ first ∷ [])).0 ≡ ok tt
unfolding append_events prepare_events prepare_event write_batch serialize lookup generate_event_key
    be_bytes
turned_appended = rw second_written (rw first_written refl)
