-- ===== src/Core/Traits.antt =====
-- crates/ledgerfs-core/src/traits.rs: what the components ask of each other. A method may change what
-- its object shares, so that it takes the state behind the object and returns it. The `T` of a
-- generic method is a parameter of the record.
use ledgerfs.Prelude.{ℕ, Bool, String, Option, List}
use ledgerfs.Prelude.Bytes.{Bytes}
use ledgerfs.Core.Types.{
  AccountId, Account, Balance, DateTime, LedgerDigest, MerkleNode, MerkleProof,
}
use ledgerfs.Core.Events.{EventEnvelope, TransactionProcessedEvent}
use ledgerfs.Core.Errors.{LedgerResult, FuseResult}

abbrev pub Call : Type 0 → Type 0 → Type 0
Call S A = S → LedgerResult A × S

-- `HashMap<String, String>`.
abbrev pub Criteria : Type 0
Criteria = List (String × String)

pub record EventStore (S : Type 0) : Type 0 where
  pub append_events : String → Option ℕ → List EventEnvelope → Call S (Unit {0})
  pub get_events : String → Option ℕ → Call S (List EventEnvelope)
  pub get_events_by_time_range : DateTime → DateTime → Call S (List EventEnvelope)
  pub get_all_events_from_version : ℕ → Call S (List EventEnvelope)
  pub get_current_version : String → Call S (Option ℕ)

pub record CommandHandler (S C : Type 0) : Type 0 where
  pub handle_command : C → Call S (List EventEnvelope)

pub record EventHandler (S E : Type 0) : Type 0 where
  pub handle_event : E → Call S (Unit {0})

pub record ReadModelRepository (S T : Type 0) : Type 0 where
  pub get_by_id : String → Call S (Option T)
  pub save : T → Call S (Unit {0})
  pub delete : String → Call S (Unit {0})
  pub find : Criteria → Call S (List T)

pub record BalanceRepository (S : Type 0) : Type 0 where
  pub get_balance : AccountId → Call S (Option Balance)
  pub update_balance : Balance → Call S (Unit {0})
  pub get_balances : List AccountId → Call S (List Balance)

pub record AccountRepository (S : Type 0) : Type 0 where
  pub get_account : AccountId → Call S (Option Account)
  pub save_account : Account → Call S (Unit {0})
  pub find_accounts : Criteria → Call S (List Account)

pub record CryptographicService (S : Type 0) : Type 0 where
  pub calculate_hash : S → Bytes → String
  pub build_merkle_tree : List String → Call S MerkleNode
  pub generate_inclusion_proof : MerkleNode → String → Call S MerkleProof
  pub verify_inclusion_proof : MerkleProof → Call S Bool
  pub generate_digest : String → ℕ → ℕ → Call S LedgerDigest

pub record ExternalStorage (S : Type 0) : Type 0 where
  pub store_digest : LedgerDigest → Call S String
  pub retrieve_digest : String → Call S LedgerDigest
  pub list_digests : Call S (List String)

pub record EventStreaming (S : Type 0) : Type 0 where
  pub publish_event : EventEnvelope → Call S (Unit {0})
  pub subscribe : (EventEnvelope → LedgerResult (Unit {0})) → Call S (Unit {0})

pub record SnapshotStore (S T : Type 0) : Type 0 where
  pub save_snapshot : String → ℕ → T → Call S (Unit {0})
  pub load_snapshot : String → Call S (Option (ℕ × T))
  pub delete_snapshot : String → Call S (Unit {0})

pub record QueryService (S : Type 0) : Type 0 where
  pub get_balance_at_time : AccountId → DateTime → Call S (Option Balance)
  pub get_transaction_history :
      AccountId
      → Option DateTime
      → Option DateTime
      → Option ℕ
      → Call S (List TransactionProcessedEvent)
  pub search_transactions : Criteria → Option ℕ → Call S (List TransactionProcessedEvent)

pub record FileAttributes : Type 0 where
  pub size : ℕ
  pub is_directory : Bool
  pub created_at : DateTime
  pub modified_at : DateTime
  pub permissions : ℕ

pub record FuseFilesystem (S : Type 0) : Type 0 where
  pub read_file : Bytes → S → FuseResult Bytes × S
  pub list_directory : Bytes → S → FuseResult (List Bytes) × S
  pub get_file_attributes : Bytes → S → FuseResult FileAttributes × S
