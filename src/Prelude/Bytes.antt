-- ===== src/Prelude/Bytes.antt =====
-- Byte strings: what Rust's `&str` and `Vec<u8>` hold. A literal is ASCII, so that its code points
-- are its bytes. The order is the lexicographic one of slices.
use Prim.Native.Char.{code}
use Prim.Native.Nat.{compare, Ordering}
use ledgerfs.Prelude.Tests.{◌==◌}
use Prim.Native.Nat.{ℕ}
use Prim.Native.String.{String}
use mathlib.Core.Path.{◌≡◌, refl}
use mathlib.Core.Logic.{◌↔◌, ◌≢◌}
use mathlib.Core.Bool.{Bool, true, false, ◌&&◌}
use mathlib.Core.List.{List, [], ◌∷◌, ◌++◌}
use native.Mathlib.Omega.{arith}

abbrev pub Bytes : Type 0
Bytes = List ℕ

abbrev pub codes : String → Bytes
codes String.[] = []
codes (String.◌∷◌ c s) = code c ∷ codes s

unfoldable pub bytes_eq : Bytes → Bytes → Bool
bytes_eq [] [] = true
bytes_eq [] (y ∷ ys) = false
bytes_eq (x ∷ xs) [] = false
bytes_eq (x ∷ xs) (y ∷ ys) = x == y && bytes_eq xs ys

pub bytes_eq_iff : (xs ys : Bytes) → (bytes_eq xs ys ≡ true) ↔ (xs ≡ ys)
unfolding bytes_eq
bytes_eq_iff [] [] = (λ _. refl, λ _. refl)
bytes_eq_iff [] (y ∷ ys) = (λ h. cc, λ h. cc)
bytes_eq_iff (x ∷ xs) [] = (λ h. cc, λ h. cc)
bytes_eq_iff (x ∷ xs) (y ∷ ys) =
    let ih = bytes_eq_iff xs ys in (λ h. ground (arith, ih.0), λ h. ground (arith, ih.1))

pub bytes_eq_refl : (xs : Bytes) → bytes_eq xs xs ≡ true
bytes_eq_refl xs = (bytes_eq_iff xs xs).1 refl

-- The order of slices, which is also RocksDB's default comparator.
unfoldable pub compare_bytes : Bytes → Bytes → Ordering
compare_bytes [] [] = Ordering.eq
compare_bytes [] (y ∷ ys) = Ordering.lt
compare_bytes (x ∷ xs) [] = Ordering.gt
compare_bytes (x ∷ xs) (y ∷ ys) = elim (compare x y) [
  | Ordering.lt ↦ Ordering.lt
  | Ordering.eq ↦ compare_bytes xs ys
  | Ordering.gt ↦ Ordering.gt
]

pub compare_bytes-eq : (xs ys : Bytes) → compare_bytes xs ys ≡ Ordering.eq → xs ≡ ys
unfolding compare_bytes
compare_bytes-eq [] [] h = refl
compare_bytes-eq [] (y ∷ ys) h = cc
compare_bytes-eq (x ∷ xs) [] h = cc
compare_bytes-eq (x ∷ xs) (y ∷ ys) h = ground (arith, compare_bytes-eq xs ys)

pub compare_bytes_refl : (xs : Bytes) → compare_bytes xs xs ≡ Ordering.eq
unfolding compare_bytes
compare_bytes_refl [] = refl
compare_bytes_refl (x ∷ xs) = ground (arith, compare_bytes_refl xs)

pub compare_bytes_swap :
    (xs ys : Bytes) → compare_bytes xs ys ≡ Ordering.gt → compare_bytes ys xs ≡ Ordering.lt
unfolding compare_bytes
compare_bytes_swap [] [] h = cc
compare_bytes_swap [] (y ∷ ys) h = cc
compare_bytes_swap (x ∷ xs) [] h = refl
compare_bytes_swap (x ∷ xs) (y ∷ ys) h = ground (arith, compare_bytes_swap xs ys)

pub compare_bytes_trans :
    (xs ys zs : Bytes)
    → compare_bytes xs ys ≡ Ordering.lt
    → compare_bytes ys zs ≡ Ordering.lt
    → compare_bytes xs zs ≡ Ordering.lt
unfolding compare_bytes
compare_bytes_trans [] [] zs h k = cc
compare_bytes_trans [] (y ∷ ys) [] h k = cc
compare_bytes_trans [] (y ∷ ys) (z ∷ zs) h k = refl
compare_bytes_trans (x ∷ xs) [] zs h k = cc
compare_bytes_trans (x ∷ xs) (y ∷ ys) [] h k = cc
compare_bytes_trans (x ∷ xs) (y ∷ ys) (z ∷ zs) h k = ground (arith, compare_bytes_trans xs ys zs)

pub compare_bytes_flip :
    (xs ys : Bytes) → compare_bytes xs ys ≡ Ordering.lt → compare_bytes ys xs ≡ Ordering.gt
unfolding compare_bytes
compare_bytes_flip [] [] h = cc
compare_bytes_flip [] (y ∷ ys) h = refl
compare_bytes_flip (x ∷ xs) [] h = cc
compare_bytes_flip (x ∷ xs) (y ∷ ys) h = ground (arith, compare_bytes_flip xs ys)

-- A byte string never stands before a prefix of it.
pub compare_bytes-prefix : (xs ys : Bytes) → compare_bytes (xs ++ ys) xs ≢ Ordering.lt
unfolding compare_bytes
compare_bytes-prefix [] [] h = cc
compare_bytes-prefix [] (y ∷ ys) h = cc
compare_bytes-prefix (x ∷ xs) ys h = ground (arith, compare_bytes-prefix xs ys)
