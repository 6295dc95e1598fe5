-- ===== src/Core/Commands.antt =====
-- crates/ledgerfs-core/src/commands.rs: the commands of the ledger and their envelope.
use ledgerfs.Prelude.{ℕ, String, Bool, true, false, Option, none, List, []}
use ledgerfs.Core.Types.{
  AccountId, TransactionId, DateTime, Amount, Currency, AccountStatus, AccountType, AccountMetadata,
  TransactionType, TransactionMetadata, LedgerDigest,
}

pub record CreateAccountCommand : Type 0 where
  pub account_id : AccountId
  pub account_type : AccountType
  pub currency : Currency
  pub initial_balance : Amount
  pub metadata : AccountMetadata

pub record ChangeAccountStatusCommand : Type 0 where
  pub account_id : AccountId
  pub new_status : AccountStatus
  pub reason : Option String

pub record UpdateAccountMetadataCommand : Type 0 where
  pub account_id : AccountId
  pub new_metadata : AccountMetadata

pub record ProcessTransactionCommand : Type 0 where
  pub transaction_id : TransactionId
  pub transaction_type : TransactionType
  pub from_account : Option AccountId
  pub to_account : Option AccountId
  pub amount : Amount
  pub currency : Currency
  pub metadata : TransactionMetadata

pub record GenerateMerkleRootCommand : Type 0 where
  pub block_height : ℕ
  pub transaction_ids : List TransactionId

pub record PublishDigestCommand : Type 0 where
  pub digest : LedgerDigest
  pub storage_location : String

pub data LedgerCommand : Type 0 where
  create_account : CreateAccountCommand → LedgerCommand
  change_account_status : ChangeAccountStatusCommand → LedgerCommand
  update_account_metadata : UpdateAccountMetadataCommand → LedgerCommand
  process_transaction : ProcessTransactionCommand → LedgerCommand
  generate_merkle_root : GenerateMerkleRootCommand → LedgerCommand
  publish_digest : PublishDigestCommand → LedgerCommand

pub record CommandMetadata : Type 0 where
  pub correlation_id : Option String
  pub user_id : Option String
  pub source : String
  pub idempotency_key : Option String

pub record CommandEnvelope : Type 0 where
  pub command_id : String
  pub command_type : String
  pub aggregate_id : String
  pub expected_version : Option ℕ
  pub timestamp : DateTime
  pub command_data : LedgerCommand
  pub metadata : CommandMetadata

-- `CommandMetadata::default`.
abbrev pub default_command_metadata : CommandMetadata
default_command_metadata = record {
  correlation_id = none;
  user_id = none;
  source = "ledgerfs";
  idempotency_key = none;
}

-- The `match` of `CommandEnvelope::new`.
abbrev pub command_type_of : LedgerCommand → String
command_type_of (create_account _) = "CreateAccount"
command_type_of (change_account_status _) = "ChangeAccountStatus"
command_type_of (update_account_metadata _) = "UpdateAccountMetadata"
command_type_of (process_transaction _) = "ProcessTransaction"
command_type_of (generate_merkle_root _) = "GenerateMerkleRoot"
command_type_of (publish_digest _) = "PublishDigest"

-- `CommandEnvelope::new`: the fresh identifier and the time of the clock are arguments.
abbrev pub new_command :
    String → DateTime → String → Option ℕ → LedgerCommand → CommandMetadata → CommandEnvelope
new_command command_id now aggregate_id expected_version command_data metadata = record {
  command_id = command_id;
  command_type = command_type_of command_data;
  aggregate_id = aggregate_id;
  expected_version = expected_version;
  timestamp = now;
  command_data = command_data;
  metadata = metadata;
}

pub data CommandValidationResult : Type 0 where
  valid : CommandValidationResult
  invalid : List String → CommandValidationResult

abbrev pub is_valid : CommandValidationResult → Bool
is_valid valid = true
is_valid (invalid _) = false

abbrev pub errors : CommandValidationResult → List String
errors valid = []
errors (invalid messages) = messages
