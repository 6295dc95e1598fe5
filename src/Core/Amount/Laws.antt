-- ===== src/Core/Amount/Laws.antt =====
-- Amounts are exact or refused: no operation on them loses money to overflow.
use ledgerfs.Prelude.{◌≡◌, ◌↔◌, ◌⊎◌, true, false, ok, err, arith, Bool-cases, inl, inr}
use ledgerfs.Prelude.Int.{
  pos, ◌≤ℤ◌, ℤ, ◌+ℤ◌, ◌-ℤ◌, ◌*ℤ◌, InI64, in_i64, in_i64_of_InI64, InI64-of_in_i64, wrap_i64_exact,
  +ℤ-cancel,
}
use ledgerfs.Core.Types.{Amount}
use ledgerfs.Core.Errors.{amount_underflow}
use ledgerfs.Core.Amount.{new, from_major_units, add, subtract, is_positive, is_negative, is_zero}

-- An amount that an `i64` can hold.
abbrev pub IsAmount : Amount → Type 0
IsAmount a = InI64 a.value

-- Addition returns an amount exactly when an `i64` holds the true sum, and it is that sum.
pub add_exact :
    (a b c : Amount)
    → (add a b ≡ ok c) ↔ (InI64 (a.value +ℤ b.value) × (c ≡ new (a.value +ℤ b.value)))
unfolding add
add_exact a b c = elim (Bool-cases (in_i64 (a.value +ℤ b.value))) [
  | inl fits ↦ (λ h. (InI64-of_in_i64 _ fits, ground arith), λ h. rw fits (cc h.1))
  | inr over ↦ (λ h. absurd (ground arith), λ h. cc (over, in_i64_of_InI64 _ h.0))
]

-- Subtraction returns an amount exactly when an `i64` holds the true difference, and it is that
-- difference.
pub subtract_exact :
    (a b c : Amount)
    → (subtract a b ≡ ok c) ↔ (InI64 (a.value -ℤ b.value) × (c ≡ new (a.value -ℤ b.value)))
unfolding subtract
subtract_exact a b c = elim (Bool-cases (in_i64 (a.value -ℤ b.value))) [
  | inl fits ↦ (λ h. (InI64-of_in_i64 _ fits, ground arith), λ h. rw fits (cc h.1))
  | inr over ↦ (λ h. absurd (ground arith), λ h. cc (over, in_i64_of_InI64 _ h.0))
]

-- A subtraction that is refused is refused as an underflow, also where the true difference is too
-- large.
pub subtract_too_large :
    (a b : Amount)
    → pos 9223372036854775808 ≤ℤ a.value -ℤ b.value
    → subtract a b ≡ err amount_underflow
unfolding subtract
subtract_too_large a b h = elim (Bool-cases (in_i64 (a.value -ℤ b.value))) [
  | inl fits ↦ absurd (omega (arith, InI64-of_in_i64 (a.value -ℤ b.value) fits))
  | inr over ↦ rw over
]

subtract_sum : (a b : Amount) → IsAmount a → subtract (new (a.value +ℤ b.value)) b ≡ ok a
unfolding subtract
subtract_sum a b h = rw +ℤ-cancel (rw (in_i64_of_InI64 _ h))

add-eq-ok : (a b c : Amount) → add a b ≡ ok c → c ≡ new (a.value +ℤ b.value)
unfolding add
add-eq-ok a b c h = ground arith

-- What was added can be subtracted again, and gives the amount back.
pub subtract-add : (a b c : Amount) → IsAmount a → add a b ≡ ok c → subtract c b ≡ ok a
subtract-add a b c ha h = rw (add-eq-ok a b c h) (subtract_sum a b ha)

-- The product of units is exact when an `i64` holds it.
pub from_major_units_exact :
    (major minor : ℤ) → InI64 (major *ℤ minor) → from_major_units major minor ≡ new (major *ℤ minor)
unfolding from_major_units
from_major_units_exact major minor h = rw (wrap_i64_exact _ h)

-- Every amount passes exactly one of the three sign tests.
pub one_sign :
    (a : Amount)
    → ((is_positive a ≡ true) × (is_negative a ≡ false) × (is_zero a ≡ false))
      ⊎ ((is_positive a ≡ false) × (is_negative a ≡ true) × (is_zero a ≡ false))
      ⊎ ((is_positive a ≡ false) × (is_negative a ≡ false) × (is_zero a ≡ true))
unfolding is_positive is_negative is_zero
one_sign a = ground arith
