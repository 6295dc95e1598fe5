-- ===== src/Store/Open/Laws.antt =====
-- A store that is opened again, by crates/ledgerfs-event-store/src/store.rs.
use ledgerfs.Prelude.{◌≡◌, String, List, [], Result, ok, arith}
use ledgerfs.Store.Table.{Table}
use ledgerfs.Store.Config.{EventStoreConfig}
use ledgerfs.Store.Platform.{Platform, IsPlatform}
use ledgerfs.Store.EventStore.{EventStore}
use ledgerfs.Store.Append.History.{Operation, perform_all}
use ledgerfs.Store.Append.Unchanged.{perform_all-serializer}
use ledgerfs.Store.Ledger.{ledger_all}
use ledgerfs.Store.Ledger.Refinement.{Holds, perform_all-Holds}
use ledgerfs.Store.Open.{Options, new_serializer, new_store}

new_store-serializer :
    {Db Error : Type 0} (open_db : Options → String → Result Error Db) (path : String)
    (config : EventStoreConfig) (store : EventStore Db)
    → new_store open_db path config ≡ ok store
    → store.serializer ≡ new_serializer config.enable_compression
unfolding new_store
new_store-serializer open_db path config store h = ground arith

module _ {Db Error : Type 0} (p : Platform Db Error) (contents : Db → Table)
    (documented : IsPlatform p contents) where
  -- A store that is opened on an empty database, used by any operations, and opened again with the
  -- same choice of compression on a database that kept its contents holds the ledger of the operations.
  pub new_store-Holds :
      (open_db reopen_db : Options → String → Result Error Db) (path : String)
      (config again : EventStoreConfig) (store reopened : EventStore Db)
      (operations : List Operation)
      → new_store open_db path config ≡ ok store
      → contents store.db ≡ []
      → new_store reopen_db path again ≡ ok reopened
      → again.enable_compression ≡ config.enable_compression
      → contents reopened.db ≡ contents (perform_all p store operations).db
      → Holds p contents documented reopened (ledger_all p store operations [])
  new_store-Holds open_db reopen_db path config again store reopened operations h empty k same
        kept =
      let held = perform_all-Holds p contents documented store operations [] (rw empty tt) in
      let coded : (perform_all p store operations).serializer ≡ reopened.serializer = cc (
        perform_all-serializer p store operations,
        new_store-serializer open_db path config store h,
        new_store-serializer reopen_db path again reopened k,
        same,
      ) in
      rw kept (rw (coded) at held)
