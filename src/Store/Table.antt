-- ===== src/Store/Table.antt =====
-- What a RocksDB column holds: key and value pairs in the order of the keys, as RocksDB documents
-- its default comparator. The abstract view that the laws of Store/Rocks are stated by.
use Prim.Native.Nat.{Ordering}
use ledgerfs.Prelude.{
  ◌≡◌, refl, ◌≢◌, Bool, true, false, not, Option, none, some, List, [], ◌∷◌, arith, filter, All,
  if◌then◌else◌,
}
use ledgerfs.Prelude.Bytes.{
  Bytes, bytes_eq, bytes_eq_iff, compare_bytes, compare_bytes-eq, compare_bytes_refl,
  compare_bytes_swap, compare_bytes_trans,
}

abbrev pub Entry : Type 0
Entry = Bytes × Bytes

abbrev pub Table : Type 0
Table = List Entry

unfoldable pub lookup : Bytes → Table → Option Bytes
lookup k [] = none
lookup k ((j, v) ∷ t) = if bytes_eq j k then some v else lookup k t

unfoldable pub insert : Bytes → Bytes → Table → Table
insert k v [] = (k, v) ∷ []
insert k v ((j, w) ∷ t) = elim (compare_bytes k j) [
  | Ordering.lt ↦ (k, v) ∷ (j, w) ∷ t
  | Ordering.eq ↦ (k, v) ∷ t
  | Ordering.gt ↦ (j, w) ∷ insert k v t
]

-- A write batch is applied in its order.
unfoldable pub insert_all : List Entry → Table → Table
insert_all [] t = t
insert_all ((k, v) ∷ batch) t = insert_all batch (insert k v t)

abbrev pub is_below : Bytes → Bytes → Bool
is_below a b = elim (compare_bytes a b) [ Ordering.lt ↦ true | _ ↦ false ]

-- The pairs from a key on.
abbrev pub from_key : Bytes → Table → Table
from_key k t = filter (λ e. not (is_below e.0 k)) t

abbrev pub Above : Bytes → Table → Type 0
Above k t = All (λ e. compare_bytes k e.0 ≡ Ordering.lt) t

abbrev pub IsSorted : Table → Type 0
IsSorted [] = Unit
IsSorted ((k, v) ∷ t) = Above k t × IsSorted t

Above-imp : (j k : Bytes) (t : Table) → compare_bytes j k ≡ Ordering.lt → Above k t → Above j t
Above-imp j k [] h a = tt
Above-imp j k ((i, w) ∷ t) h a = (compare_bytes_trans j k i h a.0, Above-imp j k t h a.1)

Above-insert :
    (j k v : Bytes) (t : Table)
    → compare_bytes j k ≡ Ordering.lt
    → Above j t
    → Above j (insert k v t)
unfolding insert
Above-insert j k v [] h a = (h, tt)
Above-insert j k v ((i, w) ∷ t) h a = ground (arith, Above-insert j k v t h a.1)

pub insert-IsSorted : (k v : Bytes) (t : Table) → IsSorted t → IsSorted (insert k v t)
unfolding insert
insert-IsSorted k v [] s = (tt, tt)
insert-IsSorted k v ((j, w) ∷ t) s = ground (
  arith,
  insert-IsSorted k v t s.1,
  compare_bytes-eq k j,
  compare_bytes_swap k j,
  Above-imp k j t,
  Above-insert j k v t,
)

pub insert_all-IsSorted :
    (batch : List Entry) (t : Table) → IsSorted t → IsSorted (insert_all batch t)
unfolding insert_all
insert_all-IsSorted [] t s = s
insert_all-IsSorted ((k, v) ∷ batch) t s = insert_all-IsSorted batch _ (insert-IsSorted k v t s)

pub lookup-insert :
    (k j v : Bytes) (t : Table)
    → lookup j (insert k v t) ≡ (if bytes_eq k j then some v else lookup j t)
unfolding lookup insert
lookup-insert k j v [] = refl
lookup-insert k j v ((i, w) ∷ t) = ground (
  arith,
  lookup-insert k j v t,
  compare_bytes-eq k i,
  bytes_eq_iff k j,
  bytes_eq_iff i j,
  compare_bytes_refl k,
)

-- Keys that a batch does not hold keep their value.
pub lookup-insert_all_ne :
    (batch : List Entry) (j : Bytes) (t : Table)
    → All (λ e. e.0 ≢ j) batch
    → lookup j (insert_all batch t) ≡ lookup j t
unfolding insert_all
lookup-insert_all_ne [] j t h = refl
lookup-insert_all_ne ((k, v) ∷ batch) j t h = ground (
  arith,
  lookup-insert_all_ne batch j (insert k v t) h.1,
  lookup-insert k j v t,
  bytes_eq_iff k j,
  h.0,
)
