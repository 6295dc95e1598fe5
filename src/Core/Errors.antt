-- ===== src/Core/Errors.antt =====
-- crates/ledgerfs-core/src/errors.rs: the errors of the ledger and of the file system.
mod Make
use ledgerfs.Prelude.{ℕ, String, List, Result}
use ledgerfs.Prelude.Bytes.{Bytes}
use ledgerfs.Core.Types.{AccountId, TransactionId, Amount, AccountStatus, Currency}

pub data LedgerError : Type 0 where
  account_not_found : AccountId → LedgerError
  transaction_not_found : TransactionId → LedgerError
  insufficient_funds : AccountId → Amount → Amount → LedgerError
  account_not_active : AccountId → AccountStatus → LedgerError
  currency_mismatch : Currency → Currency → LedgerError
  amount_overflow amount_underflow : LedgerError
  invalid_amount : Amount → LedgerError
  duplicate_transaction : TransactionId → LedgerError
  duplicate_account : AccountId → LedgerError
  concurrency_conflict : ℕ → ℕ → LedgerError
  command_validation_failed : List String → LedgerError
  event_store_error serialization_error cryptographic_error : String → LedgerError
  merkle_proof_verification_failed digest_verification_failed : LedgerError
  storage_error network_error configuration_error permission_denied : String → LedgerError
  rate_limit_exceeded : LedgerError
  service_unavailable timeout internal : String → LedgerError

abbrev pub LedgerResult : Type 0 → Type 0
LedgerResult A = Result LedgerError A

-- Paths are byte strings here, since the file system walks them.
pub data FuseError : Type 0 where
  file_not_found permission_denied invalid_path io_error : Bytes → FuseError
  ledger_error : LedgerError → FuseError

abbrev pub FuseResult : Type 0 → Type 0
FuseResult A = Result FuseError A
