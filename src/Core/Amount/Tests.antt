-- ===== src/Core/Amount/Tests.antt =====
-- Amounts at concrete values.
use ledgerfs.Prelude.{◌≡◌, refl, ◌↔◌, ◌⊎◌, true, false, ok, err, arith}
use ledgerfs.Prelude.Int.{pos, negsuc, ◌+ℤ◌, ◌-ℤ◌, ◌*ℤ◌, InI64}
use ledgerfs.Core.Errors.{amount_underflow}
use ledgerfs.Core.Amount.{new, from_major_units, add, subtract, is_positive, is_negative, is_zero}
use ledgerfs.Core.Amount.Laws.{
  add_exact, subtract_exact, subtract_too_large, subtract-add, from_major_units_exact, one_sign,
}

add_exact_test :
    (add (new (pos 30)) (new (negsuc 9)) ≡ ok (new (pos 20)))
    ↔ (InI64 (pos 30 +ℤ negsuc 9) × (new (pos 20) ≡ new (pos 30 +ℤ negsuc 9)))
add_exact_test = add_exact (new (pos 30)) (new (negsuc 9)) (new (pos 20))

subtract_exact_example :
    (subtract (new (pos 30)) (new (pos 50)) ≡ ok (new (negsuc 19)))
    ↔ (InI64 (pos 30 -ℤ pos 50) × (new (negsuc 19) ≡ new (pos 30 -ℤ pos 50)))
subtract_exact_example = subtract_exact (new (pos 30)) (new (pos 50)) (new (negsuc 19))

subtract_too_large_test :
    subtract (new (pos 9223372036854775807)) (new (negsuc 0)) ≡ err amount_underflow
unfolding ◌-ℤ◌
subtract_too_large_test =
    subtract_too_large (new (pos 9223372036854775807)) (new (negsuc 0)) (omega arith)

subtract-add_test : subtract (new (pos 80)) (new (pos 50)) ≡ ok (new (pos 30))
unfolding add ◌+ℤ◌
subtract-add_test =
    subtract-add (new (pos 30)) (new (pos 50)) (new (pos 80)) (omega arith, omega arith) refl

from_major_units_exact_test : from_major_units (pos 12) (pos 100) ≡ new (pos 12 *ℤ pos 100)
unfolding ◌*ℤ◌
from_major_units_exact_test = from_major_units_exact (pos 12) (pos 100) (omega arith, omega arith)

one_sign_test :
    ((is_positive (new (negsuc 4)) ≡ true)
      × (is_negative (new (negsuc 4)) ≡ false)
      × (is_zero (new (negsuc 4)) ≡ false))
    ⊎ ((is_positive (new (negsuc 4)) ≡ false)
        × (is_negative (new (negsuc 4)) ≡ true)
        × (is_zero (new (negsuc 4)) ≡ false))
    ⊎ ((is_positive (new (negsuc 4)) ≡ false)
        × (is_negative (new (negsuc 4)) ≡ false)
        × (is_zero (new (negsuc 4)) ≡ true))
one_sign_test = one_sign (new (negsuc 4))
