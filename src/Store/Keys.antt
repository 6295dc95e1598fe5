-- ===== src/Store/Keys.antt =====
-- The storage keys of crates/ledgerfs-event-store/src/serialization.rs.
pub mod Digits
pub mod Order
mod Tests
use ledgerfs.Prelude.{
  ℕ, zero, suc, ◌/◌, ◌%◌, ◌^◌, ◌≡◌, String, Option, none, some, List, [], ◌∷◌, ◌++◌, if◌then◌else◌,
}
use ledgerfs.Prelude.Int.{ℤ, pos, in_i64, as_u64}
use ledgerfs.Prelude.Bytes.{Bytes, codes}
use ledgerfs.Core.Types.{DateTime}
use ledgerfs.Core.Events.{EventEnvelope}

-- What is used of the `chrono` crate. It documents `None` for a time whose nanoseconds do not fit
-- an `i64`.
pub record Chrono : Type 0 where
  pub timestamp_nanos_opt : DateTime → Option ℤ

abbrev pub IsChrono : Chrono → Type 0
IsChrono c = (t : DateTime) → c.timestamp_nanos_opt t ≡ (if in_i64 t then some t else none)

abbrev pub documented_chrono : Chrono
documented_chrono = record { timestamp_nanos_opt = λ t. if in_i64 t then some t else none }

-- The k lowest bytes of a number, the most significant first: `to_be_bytes` of a number below
-- 256 ^ k.
unfoldable pub be_bytes : ℕ → ℕ → Bytes
be_bytes zero n = []
be_bytes (suc k) n = (n / 256 ^ k) ∷ be_bytes k (n % 256 ^ k)

abbrev unwrap_or_zero : Option ℤ → ℤ
unwrap_or_zero none = pos 0
unwrap_or_zero (some n) = n

module _ (c : Chrono) where
  -- `timestamp.timestamp_nanos_opt().unwrap_or(0) as u64`
  abbrev pub timestamp_nanos : DateTime → ℕ
  timestamp_nanos t = as_u64 (unwrap_or_zero (c.timestamp_nanos_opt t))

  unfoldable pub generate_event_key : EventEnvelope → Bytes
  generate_event_key envelope =
      be_bytes 8 (timestamp_nanos envelope.timestamp) ++ envelope.event_id.uuid.bytes

  unfoldable pub generate_time_key_prefix : DateTime → Bytes
  generate_time_key_prefix timestamp = be_bytes 8 (timestamp_nanos timestamp)

-- The prefix is never used by the store.
abbrev pub generate_account_key_prefix : Bytes → Bytes
generate_account_key_prefix account_id = codes "account:" ++ account_id
