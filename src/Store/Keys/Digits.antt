-- ===== src/Store/Keys/Digits.antt =====
-- The digits of `be_bytes` in the order of byte strings.
use Prim.Native.Nat.{Ordering}
use mathlib.Core.List.{append-nil, append_cancel_left}
use native.Mathlib.Nat.{pow-suc, div-add-mod, mod-lt}
use ledgerfs.Prelude.{
  ℕ, zero, suc, ◌/◌, ◌%◌, ◌^◌, ◌<◌, ◌≡◌, refl, ap, ltb, [], inl, inr, ◌⊎◌, ◌++◌, arith, length,
}
use ledgerfs.Prelude.Bytes.{
  Bytes, compare_bytes, compare_bytes_refl, compare_bytes_flip, compare_bytes-prefix,
}
use ledgerfs.Store.Table.{is_below}
use ledgerfs.Store.Keys.{be_bytes}

pub pow_pos : (k : ℕ) → 0 < 256 ^ k
pow_pos zero = omega arith
pow_pos (suc k) = rw pow-suc (omega (arith, pow_pos k))

pub length-be_bytes : (k n : ℕ) → length (be_bytes k n) ≡ k
unfolding be_bytes
length-be_bytes zero n = refl
length-be_bytes (suc k) n = ap suc (length-be_bytes k (n % 256 ^ k))

-- Where the quotient does not fall, the order is that of the quotients or of the remainders.
div_mod_lt : (a b m : ℕ) → 0 < m → a < b → (a / m < b / m) ⊎ ((a / m ≡ b / m) × (a % m < b % m))
div_mod_lt a b m h lt = grind (arith, div-add-mod a m, div-add-mod b m, mod-lt a h, mod-lt b h)

pub be_bytes_lt :
    (k a b : ℕ) (xs ys : Bytes)
    → a < b
    → b < 256 ^ k
    → compare_bytes (be_bytes k a ++ xs) (be_bytes k b ++ ys) ≡ Ordering.lt
unfolding be_bytes compare_bytes
be_bytes_lt zero a b xs ys h hb = absurd (omega arith)
be_bytes_lt (suc k) a b xs ys h hb = ground (
  arith,
  div_mod_lt a b (256 ^ k) (pow_pos k),
  be_bytes_lt k (a % 256 ^ k) (b % 256 ^ k) xs ys,
  mod-lt b (pow_pos k),
)

lt_cases : (a b : ℕ) → (a < b) ⊎ (b < a) ⊎ (a ≡ b)
lt_cases a b = omega arith

pub be_bytes_append_inj :
    (k a b : ℕ) (xs ys : Bytes)
    → a < 256 ^ k
    → b < 256 ^ k
    → be_bytes k a ++ xs ≡ be_bytes k b ++ ys
    → (a ≡ b) × (xs ≡ ys)
be_bytes_append_inj k a b xs ys ha hb e = elim (lt_cases a b) [
  | inl lt ↦ cc (be_bytes_lt k a b xs ys lt hb, compare_bytes_refl (be_bytes k b ++ ys))
  | inr (inl gt) ↦ cc (be_bytes_lt k b a ys xs gt ha, compare_bytes_refl (be_bytes k a ++ xs))
  | inr (inr same) ↦ (same, append_cancel_left (be_bytes k b) xs ys (rw same at e))
]

-- What stands before a time's prefix.
pub is_below_prefix :
    (k a b : ℕ) (xs : Bytes)
    → a < 256 ^ k
    → b < 256 ^ k
    → is_below (be_bytes k a ++ xs) (be_bytes k b) ≡ ltb a b
is_below_prefix k a b xs ha hb = elim (lt_cases a b) [
  | inl lt ↦
      let h : compare_bytes (be_bytes k a ++ xs) (be_bytes k b) ≡ Ordering.lt =
        rw append-nil at (be_bytes_lt k a b xs [] lt hb) in
      ground arith
  | inr (inl gt) ↦
      let h : compare_bytes (be_bytes k b) (be_bytes k a ++ xs) ≡ Ordering.lt =
        rw append-nil at (be_bytes_lt k b a [] xs gt ha) in
      ground (arith, compare_bytes_flip (be_bytes k b) (be_bytes k a ++ xs))
  | inr (inr e) ↦ rw e (ground (arith, compare_bytes-prefix (be_bytes k b) xs))
]
