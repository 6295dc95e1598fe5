-- ===== src/Core/Amount.antt =====
-- `impl Amount` of crates/ledgerfs-core/src/types.rs. Built for release, an unchecked `i64`
-- product wraps.
pub mod Laws
mod Tests
use ledgerfs.Prelude.{Bool, Option, none, some, Result, ok, err}
use ledgerfs.Prelude.Int.{ℤ, pos, ◌+ℤ◌, ◌-ℤ◌, ◌*ℤ◌, checked, wrap_i64, ltb_ℤ, eqb_ℤ}
use ledgerfs.Core.Types.{Amount}
use ledgerfs.Core.Errors.{LedgerError, LedgerResult, amount_overflow, amount_underflow}

abbrev pub new : ℤ → Amount
new value = record { value = value }

abbrev pub zero_amount : Amount
zero_amount = record { value = pos 0 }

pub from_major_units : ℤ → ℤ → Amount
from_major_units major minor_units_per_major = new (wrap_i64 (major *ℤ minor_units_per_major))

-- `.map(|value| Amount { value }).ok_or(e)`.
abbrev or_error : LedgerError → Option ℤ → LedgerResult Amount
or_error e none = err e
or_error e (some value) = ok (new value)

unfoldable pub add : Amount → Amount → LedgerResult Amount
add self other = or_error amount_overflow (checked (self.value +ℤ other.value))

unfoldable pub subtract : Amount → Amount → LedgerResult Amount
subtract self other = or_error amount_underflow (checked (self.value -ℤ other.value))

pub is_positive : Amount → Bool
is_positive self = ltb_ℤ (pos 0) self.value

pub is_negative : Amount → Bool
is_negative self = ltb_ℤ self.value (pos 0)

pub is_zero : Amount → Bool
is_zero self = eqb_ℤ self.value (pos 0)
