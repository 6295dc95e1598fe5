-- ===== src/Prelude/Int.antt =====
-- Signed integers over the native numbers, under the library's names, and the 64-bit range.
-- `negsuc n` is -(n + 1).
use ledgerfs.Prelude.Tests.{ltb, leb, ◌==◌, if◌then◌else◌}
use Prim.Native.Nat.{ℕ, suc, ◌+◌, ◌-◌, ◌*◌, ◌%◌, ◌^◌, ◌≤◌, ◌<◌}
use mathlib.Core.Path.{◌≡◌}
use mathlib.Core.Bool.{Bool, true}
use mathlib.Core.Option.{Option, none, some}
use native.Mathlib.Omega.{arith}

pub data ℤ : Type 0 where
  pos : ℕ → ℤ
  negsuc : ℕ → ℤ

abbrev pub pos_part : ℤ → ℕ
pos_part (pos n) = n
pos_part (negsuc n) = 0

abbrev pub neg_part : ℤ → ℕ
neg_part (pos n) = 0
neg_part (negsuc n) = suc n

-- a - b, as an integer.
abbrev pub sub_ℕ : ℕ → ℕ → ℤ
sub_ℕ a b = if leb b a then pos (a - b) else negsuc (b - a - 1)

infixl 65 ◌+ℤ◌ ◌-ℤ◌
infixl 70 ◌*ℤ◌
infix 50 ◌≤ℤ◌ ◌<ℤ◌
unfoldable pub ◌+ℤ◌ : ℤ → ℤ → ℤ
a +ℤ b = sub_ℕ (pos_part a + pos_part b) (neg_part a + neg_part b)

unfoldable pub ◌-ℤ◌ : ℤ → ℤ → ℤ
a -ℤ b = sub_ℕ (pos_part a + neg_part b) (neg_part a + pos_part b)

unfoldable pub ◌*ℤ◌ : ℤ → ℤ → ℤ
a *ℤ b =
    sub_ℕ (pos_part a * pos_part b + neg_part a * neg_part b)
      (pos_part a * neg_part b + neg_part a * pos_part b)

abbrev pub ◌≤ℤ◌ : ℤ → ℤ → Type 0
a ≤ℤ b = pos_part a + neg_part b ≤ pos_part b + neg_part a

abbrev pub ◌<ℤ◌ : ℤ → ℤ → Type 0
a <ℤ b = pos_part a + neg_part b < pos_part b + neg_part a

abbrev pub ltb_ℤ : ℤ → ℤ → Bool
ltb_ℤ a b = ltb (pos_part a + neg_part b) (pos_part b + neg_part a)

abbrev pub eqb_ℤ : ℤ → ℤ → Bool
eqb_ℤ a b = (pos_part a + neg_part b) == (pos_part b + neg_part a)

-- An `i64` is an integer in this range.
abbrev pub InI64 : ℤ → Type 0
InI64 a = (pos_part a < 2 ^ 63) × (neg_part a ≤ 2 ^ 63)

abbrev pub in_i64 : ℤ → Bool
in_i64 (pos n) = ltb n (2 ^ 63)
in_i64 (negsuc n) = ltb n (2 ^ 63)

-- `i64::checked_add` and `i64::checked_sub`.
abbrev pub checked : ℤ → Option ℤ
checked z = if in_i64 z then some z else none

-- `n as u64` of an `i64`: the bit pattern in two's complement.
abbrev pub as_u64 : ℤ → ℕ
as_u64 (pos n) = n % 2 ^ 64
as_u64 (negsuc n) = 2 ^ 64 - 1 - n % 2 ^ 64

-- The `i64` that a 64-bit pattern stands for, and arithmetic that wraps.
abbrev pub of_u64 : ℕ → ℤ
of_u64 w = if ltb w (2 ^ 63) then pos w else negsuc (2 ^ 64 - 1 - w)

abbrev pub wrap_i64 : ℤ → ℤ
wrap_i64 z = of_u64 (as_u64 z)

pub in_i64_of_InI64 : (z : ℤ) → InI64 z → in_i64 z ≡ true
in_i64_of_InI64 (pos n) h = ground arith
in_i64_of_InI64 (negsuc n) h = ground arith

pub InI64-of_in_i64 : (z : ℤ) → in_i64 z ≡ true → InI64 z
InI64-of_in_i64 (pos n) h = ground arith
InI64-of_in_i64 (negsuc n) h = ground arith

pub wrap_i64-InI64 : (z : ℤ) → InI64 (wrap_i64 z)
wrap_i64-InI64 (pos n) = ground arith
wrap_i64-InI64 (negsuc n) = ground arith

pub wrap_i64_exact : (z : ℤ) → InI64 z → wrap_i64 z ≡ z
wrap_i64_exact (pos n) h = ground arith
wrap_i64_exact (negsuc n) h = ground arith

pub +ℤ_parts :
    (a b : ℤ)
    → pos_part (a +ℤ b) + neg_part a + neg_part b ≡ neg_part (a +ℤ b) + pos_part a + pos_part b
unfolding ◌+ℤ◌
+ℤ_parts a b = ground arith

pub -ℤ_parts :
    (a b : ℤ)
    → pos_part (a -ℤ b) + neg_part a + pos_part b ≡ neg_part (a -ℤ b) + pos_part a + neg_part b
unfolding ◌-ℤ◌
-ℤ_parts a b = ground arith

pub eq_of_parts : (a b : ℤ) → pos_part a + neg_part b ≡ pos_part b + neg_part a → a ≡ b
eq_of_parts a b h = ground arith

pub ruleset int_laws = (arith, +ℤ_parts, -ℤ_parts, eq_of_parts)

pub +ℤ-cancel : (a b : ℤ) → a +ℤ b -ℤ b ≡ a
+ℤ-cancel a b = omega int_laws

pub -ℤ-cancel : (a b : ℤ) → a -ℤ b +ℤ b ≡ a
-ℤ-cancel a b = omega int_laws
