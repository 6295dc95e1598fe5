-- ===== src/Store/Suite/Writer.antt =====
-- `test_sync_batch_writer` of crates/ledgerfs-event-store/src/batch.rs.
use ledgerfs.Prelude.{
  ℕ, ◌≡◌, refl, ap, ◌∙◌, Bool, true, false, ◌&&◌, Option, none, some, List, [], ◌∷◌, ◌++◌, ok,
  arith, length, map, ◌+◌, ◌==◌, if◌then◌else◌,
}
use ledgerfs.Prelude.Perm.{length-Perm}
use ledgerfs.Core.Events.{EventEnvelope}
use ledgerfs.Store.Table.{Table}
use ledgerfs.Store.Rocks.{end}
use ledgerfs.Store.Platform.{Platform, IsPlatform}
use ledgerfs.Store.EventStore.{EventStore, key_of}
use ledgerfs.Store.Append.{append_events}
use ledgerfs.Store.Append.History.{Operation, several, perform, perform_all}
use ledgerfs.Store.Query.{get_latest_events}
use ledgerfs.Store.Batch.{
  SyncBatchWriter, new_writer, add_event, pending_count, flush, flush_if_full,
}
use ledgerfs.Store.Ledger.{accepted, recorded, ledger_all}
use ledgerfs.Store.Ledger.Order.{Distinct}
use ledgerfs.Store.Ledger.Reads.{history}
use ledgerfs.Store.Ledger.Latest.{get_latest_events_answer}
use ledgerfs.Store.Suite.{Drawn, unwrapped, create_test_event}

module _ {Db Error : Type 0} (p : Platform Db Error) where
  -- The loop from its i-th round on: `none` where it panics.
  write_each : ℕ → SyncBatchWriter Db → List Drawn → Option (SyncBatchWriter Db)
  write_each i writer [] = some writer
  write_each i writer (d ∷ ds) =
      let added = add_event writer (create_test_event d) in
      let (r, flushed) = flush_if_full p added in
      let waiting = write_each (i + 1) added ds in
      let emptied = write_each (i + 1) flushed ds in
      if i == 2
      then (if unwrapped r (λ full. full && (pending_count flushed == 0)) then emptied else none)
      else waiting

  -- The assertions after the loop.
  check_writer : SyncBatchWriter Db → Bool
  check_writer writer =
      let (r, flushed) = flush p writer in
      (pending_count writer == 2)
      && unwrapped r (λ _.
        (pending_count flushed == 0)
        && unwrapped (get_latest_events p flushed.event_store 10)
            (λ latest_events. length latest_events == 5))

  test_sync_batch_writer : EventStore Db → List Drawn → Bool
  test_sync_batch_writer store ds = elim (write_each 0 (new_writer store 3) ds) [
    | none ↦ false
    | some writer ↦ check_writer writer
  ]

  written_three :
      (store : EventStore Db) (a b c d e : Drawn)
      → let es = map create_test_event (a ∷ b ∷ c ∷ []) in
        (append_events p store es).0 ≡ ok tt
        → write_each 0 (new_writer store 3) (a ∷ b ∷ c ∷ d ∷ e ∷ [])
          ≡ some (record {
            event_store = (append_events p store es).1;
            pending_events = map create_test_event (d ∷ e ∷ []);
            max_batch_size = 3;
          })
  unfolding write_each flush_if_full flush
  written_three store a b c d e good = rw good refl

  both_recorded :
      (store : EventStore Db) (first second : List EventEnvelope)
      → (append_events p store first).0 ≡ ok tt
      → (append_events p (append_events p store first).1 second).0 ≡ ok tt
      → recorded p store (several first ∷ several second ∷ []) ≡ first ++ (second ++ [])
  unfolding recorded accepted perform
  both_recorded store first second good more = rw good (rw more refl)

module _ {Db Error : Type 0} (p : Platform Db Error) (contents : Db → Table)
    (documented : IsPlatform p contents) where
  -- It passes where the store is empty, the keys of each batch are different, both appends succeed
  -- and the last iteration meets no error.
  test_sync_batch_writer_passes :
      (store : EventStore Db) (a b c d e : Drawn)
      → let first = map create_test_event (a ∷ b ∷ c ∷ []) in
        let second = map create_test_event (d ∷ e ∷ []) in
        let after = (append_events p store first).1 in
        contents store.db ≡ []
        → Distinct (key_of p) first
        → Distinct (key_of p) second
        → (append_events p store first).0 ≡ ok tt
        → (append_events p after second).0 ≡ ok tt
        → (p.rocks.iterator (append_events p after second).1.db end).fault ≡ none
        → test_sync_batch_writer p store (a ∷ b ∷ c ∷ d ∷ e ∷ []) ≡ true
  unfolding test_sync_batch_writer check_writer flush perform_all perform
  test_sync_batch_writer_passes store a b c d e empty one two good more quiet =
      let first = map create_test_event (a ∷ b ∷ c ∷ []) in
      let second = map create_test_event (d ∷ e ∷ []) in
      let operations : List Operation = several first ∷ several second ∷ [] in
      let (held, perm, order) =
        history p contents documented store operations empty (one, (two, tt)) in
      let l = ledger_all p store operations [] in
      let after = perform_all p store operations in
      let all : recorded p store operations ≡ first ++ (second ++ []) =
        both_recorded p store first second good more in
      let long : length l ≡ 5 = length-Perm perm ∙ ap length all in
      let (_, latest, _, counted, answer) =
        get_latest_events_answer p contents documented after l 10 held quiet in
      let five : length latest ≡ 5 = omega (arith, counted, long) in
      rw (written_three p store a b c d e good, test_sync_batch_writer)
        (rw more (rw answer (rw five refl)))
