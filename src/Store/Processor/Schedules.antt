-- ===== src/Store/Processor/Schedules.antt =====
-- What the queries return does not depend on how the tasks of a `BatchProcessor` of
-- crates/ledgerfs-event-store/src/batch.rs ran.
use ledgerfs.Prelude.{ℕ, ◌≡◌, ◌<◌, sym, ◌∙◌, Bool, true, none, [], count}
use ledgerfs.Core.Events.{EventEnvelope}
use ledgerfs.Store.Table.{Table}
use ledgerfs.Store.Platform.{Platform, IsPlatform}
use ledgerfs.Store.EventStore.{EventStore, EventQuery, key_of}
use ledgerfs.Store.Query.{query_events, query_mode}
use ledgerfs.Store.Batch.{BatchConfig}
use ledgerfs.Store.Ledger.{ledger_all}
use ledgerfs.Store.Ledger.Records.{DistinctAll}
use ledgerfs.Store.Ledger.Unique.{InKeyOrder-unique}
use ledgerfs.Store.Ledger.Agree.{query_events-agree}
use ledgerfs.Store.Processor.Channel.{Channel, IsChannel}
use ledgerfs.Store.Processor.Metrics.{Float}
use ledgerfs.Store.Processor.System.{System, all_stopped, Reach}
use ledgerfs.Store.Processor.Replay.{refused}
use ledgerfs.Store.Processor.Settled.{NoShutdown}
use ledgerfs.Store.Processor.Served.{settled-ledger}

module _ {Db Error F F' C C' : Type 0} (p : Platform Db Error) (contents : Db → Table)
    (documented : IsPlatform p contents) (f : Float F) (f' : Float F') (t : Channel C)
    (t' : Channel C') (k : IsChannel t) (k' : IsChannel t') (config config' : BatchConfig) where
  -- Neither the schedule nor the configuration shows, where `max_batch_delay` is above zero: let two
  -- processors with such configurations start on empty stores, be sent the same events in any order and not be shut down, let all their tasks have ended, and let
  -- no batch have been refused nor held two events of one key. Then any query that meets no iterator
  -- error returns the same from both stores.
  pub query_events-schedules :
      {store store' : EventStore Db} {now now' : ℕ} {s : System Db Error F C}
      {s' : System Db Error F' C'} (r : Reach p f t config store now s)
      (r' : Reach p f' t' config' store' now' s') (query : EventQuery)
      → ((q : EventEnvelope → Bool) → count q s.sent ≡ count q s'.sent)
      → contents store.db ≡ []
      → contents store'.db ≡ []
      → 0 < config.max_batch_delay
      → 0 < config'.max_batch_delay
      → NoShutdown p f t k config r
      → NoShutdown p f' t' k' config' r'
      → all_stopped s.workers ≡ true
      → all_stopped s'.workers ≡ true
      → refused p store s.history ≡ []
      → refused p store' s'.history ≡ []
      → DistinctAll p contents documented s.history
      → DistinctAll p contents documented s'.history
      → (p.rocks.iterator s.shared.store.db (query_mode p query)).fault ≡ none
      → (p.rocks.iterator s'.shared.store.db (query_mode p query)).fault ≡ none
      → query_events p s.shared.store query ≡ query_events p s'.shared.store query
  query_events-schedules {store} {store'} {s = s} {s' = s'} r r' query sent empty empty' timed
        timed' kept kept' done done' accepted accepted' distinct distinct' quiet quiet' =
      let (held, same, order) =
        settled-ledger p contents documented f t k config r empty timed kept done accepted
          distinct in
      let (held', same', order') =
        settled-ledger p contents documented f' t' k' config' r' empty' timed' kept' done' accepted'
          distinct' in
      let one =
        InKeyOrder-unique (key_of p) (ledger_all p store s.history [])
          (ledger_all p store' s'.history []) order order' (λ q. same q ∙ sent q ∙ sym (same' q)) in
      query_events-agree p contents documented s.shared.store s'.shared.store
        (ledger_all p store s.history []) query held (rw one held') quiet quiet'
