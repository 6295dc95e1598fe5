-- ===== src/Core/Errors/Make.antt =====
-- The functions of `impl LedgerError` of crates/ledgerfs-core/src/errors.rs, and the conversion to a
-- `FuseError`. A message is `impl Into<String>` there, its text here.
use ledgerfs.Prelude.{String}
use ledgerfs.Core.Errors.{LedgerError, FuseError}

abbrev event_store : String → LedgerError
event_store message = LedgerError.event_store_error message

abbrev serialization : String → LedgerError
serialization message = LedgerError.serialization_error message

abbrev cryptographic : String → LedgerError
cryptographic message = LedgerError.cryptographic_error message

abbrev storage : String → LedgerError
storage message = LedgerError.storage_error message

abbrev network : String → LedgerError
network message = LedgerError.network_error message

abbrev configuration : String → LedgerError
configuration message = LedgerError.configuration_error message

abbrev permission_denied_error : String → LedgerError
permission_denied_error operation = LedgerError.permission_denied operation

abbrev service_unavailable_error : String → LedgerError
service_unavailable_error service = LedgerError.service_unavailable service

abbrev timeout_error : String → LedgerError
timeout_error operation = LedgerError.timeout operation

abbrev internal_error : String → LedgerError
internal_error message = LedgerError.internal message

abbrev from_ledger_error : LedgerError → FuseError
from_ledger_error error = FuseError.ledger_error error
