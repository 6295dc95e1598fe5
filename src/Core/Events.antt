-- ===== src/Core/Events.antt =====
-- crates/ledgerfs-core/src/events.rs: the events of the ledger and their envelope.
use ledgerfs.Prelude.{ℕ, String, Option, none}
use ledgerfs.Prelude.Bytes.{Bytes}
use ledgerfs.Core.Types.{
  AccountId, TransactionId, EventId, DateTime, Amount, Currency, AccountStatus, AccountType,
  AccountMetadata, TransactionType, TransactionMetadata, LedgerDigest,
}

pub record AccountCreatedEvent : Type 0 where
  pub account_id : AccountId
  pub account_type : AccountType
  pub currency : Currency
  pub initial_balance : Amount
  pub metadata : AccountMetadata
  pub created_at : DateTime

pub record AccountStatusChangedEvent : Type 0 where
  pub account_id : AccountId
  pub old_status : AccountStatus
  pub new_status : AccountStatus
  pub reason : Option String
  pub changed_at : DateTime

pub record AccountMetadataUpdatedEvent : Type 0 where
  pub account_id : AccountId
  pub old_metadata : AccountMetadata
  pub new_metadata : AccountMetadata
  pub updated_at : DateTime

pub record TransactionProcessedEvent : Type 0 where
  pub transaction_id : TransactionId
  pub transaction_type : TransactionType
  pub from_account : Option AccountId
  pub to_account : Option AccountId
  pub amount : Amount
  pub currency : Currency
  pub metadata : TransactionMetadata
  pub processed_at : DateTime

pub record BalanceUpdatedEvent : Type 0 where
  pub account_id : AccountId
  pub old_balance : Amount
  pub new_balance : Amount
  pub currency : Currency
  pub transaction_id : Option TransactionId
  pub updated_at : DateTime

pub record MerkleRootGeneratedEvent : Type 0 where
  pub block_height : ℕ
  pub root_hash : String
  pub transaction_count : ℕ
  pub previous_root_hash : Option String
  pub generated_at : DateTime

pub record DigestPublishedEvent : Type 0 where
  pub digest : LedgerDigest
  pub storage_location : String
  pub published_at : DateTime

pub data LedgerEvent : Type 0 where
  account_created : AccountCreatedEvent → LedgerEvent
  account_status_changed : AccountStatusChangedEvent → LedgerEvent
  account_metadata_updated : AccountMetadataUpdatedEvent → LedgerEvent
  transaction_processed : TransactionProcessedEvent → LedgerEvent
  balance_updated : BalanceUpdatedEvent → LedgerEvent
  merkle_root_generated : MerkleRootGeneratedEvent → LedgerEvent
  digest_published : DigestPublishedEvent → LedgerEvent

pub record EventMetadata : Type 0 where
  pub correlation_id : Option String
  pub causation_id : Option String
  pub user_id : Option String
  pub source : String

pub record EventEnvelope : Type 0 where
  pub event_id : EventId
  pub event_type : String
  pub aggregate_id : String
  pub aggregate_version : ℕ
  pub timestamp : DateTime
  pub event_data : LedgerEvent
  pub metadata : EventMetadata

-- `EventMetadata::default`.
abbrev pub default_metadata : EventMetadata
default_metadata = record {
  correlation_id = none;
  causation_id = none;
  user_id = none;
  source = "ledgerfs";
}

-- The `match` of `EventEnvelope::new`.
unfoldable pub event_type_of : LedgerEvent → String
event_type_of (account_created _) = "AccountCreated"
event_type_of (account_status_changed _) = "AccountStatusChanged"
event_type_of (account_metadata_updated _) = "AccountMetadataUpdated"
event_type_of (transaction_processed _) = "TransactionProcessed"
event_type_of (balance_updated _) = "BalanceUpdated"
event_type_of (merkle_root_generated _) = "MerkleRootGenerated"
event_type_of (digest_published _) = "DigestPublished"

-- `EventEnvelope::new`: the fresh identifier and the time of the clock are arguments.
unfoldable pub new_envelope :
    EventId → DateTime → String → ℕ → LedgerEvent → EventMetadata → EventEnvelope
new_envelope event_id now aggregate_id aggregate_version event_data metadata = record {
  event_id = event_id;
  event_type = event_type_of event_data;
  aggregate_id = aggregate_id;
  aggregate_version = aggregate_version;
  timestamp = now;
  event_data = event_data;
  metadata = metadata;
}

-- `EventEnvelope::calculate_hash`, over the crates' JSON text, SHA-256 and hexadecimal digits.
abbrev pub calculate_hash :
    (EventEnvelope → Bytes) → (Bytes → Bytes) → (Bytes → String) → EventEnvelope → String
calculate_hash to_json sha256 hex_encode self = hex_encode (sha256 (to_json self))
