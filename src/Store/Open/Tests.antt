-- ===== src/Store/Open/Tests.antt =====
-- A store in memory that is opened twice.
use ledgerfs.Prelude.{◌≡◌, refl, String, [], ◌∷◌, Result, ok}
use ledgerfs.Store.Config.{default_config, high_durability}
use ledgerfs.Store.EventStore.{EventStore}
use ledgerfs.Store.Append.History.{single, perform_all}
use ledgerfs.Store.Tests.Memory.{Memory, memory, memory-IsPlatform, held, empty_store, first}
use ledgerfs.Store.Ledger.{ledger_all}
use ledgerfs.Store.Ledger.Refinement.{Holds}
use ledgerfs.Store.Open.{Options, new_store}
use ledgerfs.Store.Open.Laws.{new_store-Holds}

-- The database that an open finds.
abbrev finding : Memory → Options → String → Result String Memory
finding db options path = ok db

abbrev after : EventStore Memory
after = perform_all memory empty_store (single first ∷ [])

abbrev reopened : EventStore Memory
reopened = record after {
  serializer = empty_store.serializer;
  config = high_durability default_config;
}

opened_empty : new_store (finding empty_store.db) "data" default_config ≡ ok empty_store
unfolding new_store
opened_empty = refl

opened_again : new_store (finding after.db) "data" (high_durability default_config) ≡ ok reopened
unfolding new_store
opened_again = refl

new_store-Holds_example :
    Holds memory held memory-IsPlatform reopened
      (ledger_all memory empty_store (single first ∷ []) [])
new_store-Holds_example =
    new_store-Holds memory held memory-IsPlatform (finding empty_store.db) (finding after.db) "data"
      default_config (high_durability default_config) empty_store reopened (single first ∷ [])
      opened_empty refl opened_again refl refl
