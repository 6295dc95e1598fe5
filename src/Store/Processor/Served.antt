-- ===== src/Store/Processor/Served.antt =====
-- From the senders of a `BatchProcessor` of crates/ledgerfs-event-store/src/batch.rs to the readers
-- of its store.
use ledgerfs.Prelude.{
  ℕ, ◌≡◌, ◌<◌, ap, Bool, true, none, some, List, [], ok, arith, count, length, take, drop, ◌==◌,
}
use ledgerfs.Prelude.Perm.{count-Perm}
use ledgerfs.Core.Events.{EventEnvelope}
use ledgerfs.Store.Table.{Table}
use ledgerfs.Store.Rocks.{start}
use ledgerfs.Store.Platform.{Platform, IsPlatform}
use ledgerfs.Store.EventStore.{EventStore, key_of}
use ledgerfs.Store.Query.{query_events, query_mode}
use ledgerfs.Store.Query.Answer.{query_events_answer}
use ledgerfs.Store.Ledger.{ledger_all}
use ledgerfs.Store.Ledger.Refinement.{Holds}
use ledgerfs.Store.Batch.{BatchConfig}
use ledgerfs.Store.Ledger.Records.{InKeyOrder, DistinctAll}
use ledgerfs.Store.Ledger.Reads.{page_query, matching_all, Kept-Decodes, history}
use ledgerfs.Store.Processor.Channel.{Channel, IsChannel}
use ledgerfs.Store.Processor.Metrics.{Float}
use ledgerfs.Store.Processor.System.{System, all_stopped, Reach}
use ledgerfs.Store.Processor.Replay.{refused}
use ledgerfs.Store.Processor.Accounts.{Reach-Accounts}
use ledgerfs.Store.Processor.Settled.{NoShutdown, all_stopped-settled}

module _ {Db Error F C : Type 0} (p : Platform Db Error) (contents : Db → Table)
    (documented : IsPlatform p contents) (f : Float F) (t : Channel C) (k : IsChannel t)
    (config : BatchConfig) where
  -- The ledger of a processor that started on an empty store and has ended holds what was sent.
  pub settled-ledger :
      {store : EventStore Db} {now : ℕ} {s : System Db Error F C}
      (r : Reach p f t config store now s)
      → contents store.db ≡ []
      → 0 < config.max_batch_delay
      → NoShutdown p f t k config r
      → all_stopped s.workers ≡ true
      → refused p store s.history ≡ []
      → DistinctAll p contents documented s.history
      → Holds p contents documented s.shared.store (ledger_all p store s.history [])
        × ((q : EventEnvelope → Bool) → count q (ledger_all p store s.history []) ≡ count q s.sent)
        × InKeyOrder (key_of p) (ledger_all p store s.history [])
  settled-ledger {store} {now} {s} r empty timed kept done accepted distinct =
      let replayed = (Reach-Accounts p f t k config r).replayed in
      let (_, conserved, _) = all_stopped-settled p f t k config r timed kept done in
      let (held, perm, order) = history p contents documented store s.history empty distinct in
      (
        rw replayed held,
        λ q. omega (arith, count-Perm q perm, conserved q, ap (count q) accepted),
        order,
      )

module _ {Db Error F C : Type 0} (p : Platform Db Error) (contents : Db → Table)
    (documented : IsPlatform p contents) (f : Float F) (t : Channel C) (k : IsChannel t)
    (config : BatchConfig) where
  -- What was sent is what is read: let a processor, with `max_batch_delay` above zero, start on an
  -- empty store and not be shut down, let all its tasks have ended, and let no batch have been refused nor held two events of one key. Then
  -- a query for all events, without an iterator error, returns exactly the events sent, in the order of
  -- their keys, from the offset on and at most `limit` of them.
  pub query_events-settled :
      {store : EventStore Db} {now : ℕ} {s : System Db Error F C}
      (r : Reach p f t config store now s) (limit offset : ℕ)
      → contents store.db ≡ []
      → 0 < config.max_batch_delay
      → NoShutdown p f t k config r
      → all_stopped s.workers ≡ true
      → refused p store s.history ≡ []
      → DistinctAll p contents documented s.history
      → (p.rocks.iterator s.shared.store.db start).fault ≡ none
      → (l : List EventEnvelope) × ((q : EventEnvelope → Bool) → count q l ≡ count q s.sent)
        × InKeyOrder (key_of p) l
        × (query_events p s.shared.store (page_query (some limit) (some offset))
            ≡ ok (record {
              events = take limit (drop offset l);
              total_count = none;
              has_more = length (take limit (drop offset l)) == limit;
            }))
  unfolding query_mode
  query_events-settled {store} {now} {s} r limit offset empty timed kept done accepted distinct
        quiet =
      let after = s.shared.store in
      let l = ledger_all p store s.history [] in
      let (held, same, order) =
        settled-ledger p contents documented f t k config r empty timed kept done accepted
          distinct in
      let answer =
        query_events_answer p contents documented after (page_query (some limit) (some offset)) l
          quiet (Kept-Decodes p after (contents after.db) l held) in
      (l, same, order, rw (matching_all limit offset l) at answer)
