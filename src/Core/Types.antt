-- ===== src/Core/Types.antt =====
-- crates/ledgerfs-core/src/types.rs: identifiers, enumerations and records.
-- A `Uuid` is its sixteen bytes, a `DateTime<Utc>` its nanoseconds from the epoch, and a
-- `HashMap<String, String>` an association list; `u64` and `usize` are plain numbers.
use ledgerfs.Prelude.{ℕ, String, ◌≡◌, ◌↔◌, Bool, true, Option, List, length, All, ◌<◌, ap}
use ledgerfs.Prelude.Int.{ℤ, ltb_ℤ}
use ledgerfs.Prelude.Bytes.{Bytes, bytes_eq, bytes_eq_iff}

pub record Uuid : Type 0 where
  pub bytes : Bytes

-- What the `uuid` crate guarantees of every value.
abbrev pub IsUuid : Uuid → Type 0
IsUuid u = (length u.bytes ≡ 16) × All (λ b. b < 256) u.bytes

pub record AccountId : Type 0 where
  pub uuid : Uuid

pub record TransactionId : Type 0 where
  pub uuid : Uuid

pub record EventId : Type 0 where
  pub uuid : Uuid

abbrev pub event_id_of : Bytes → EventId
event_id_of bs = record { uuid = record { bytes = bs } }

-- The derived `PartialEq` of the identifiers.
abbrev pub account_id_eq : AccountId → AccountId → Bool
account_id_eq a b = bytes_eq a.uuid.bytes b.uuid.bytes

abbrev pub event_id_eq : EventId → EventId → Bool
event_id_eq a b = bytes_eq a.uuid.bytes b.uuid.bytes

pub account_id_eq_iff : (a b : AccountId) → (account_id_eq a b ≡ true) ↔ (a ≡ b)
account_id_eq_iff a b =
    let e = bytes_eq_iff a.uuid.bytes b.uuid.bytes in
    (λ h. ap of_bytes (e.0 h), λ h. e.1 (ap (λ (x : AccountId). x.uuid.bytes) h))
  where
    of_bytes : Bytes → AccountId
    of_bytes bs = record { uuid = record { bytes = bs } }

pub event_id_eq_iff : (a b : EventId) → (event_id_eq a b ≡ true) ↔ (a ≡ b)
event_id_eq_iff a b =
    let e = bytes_eq_iff a.uuid.bytes b.uuid.bytes in
    (λ h. ap event_id_of (e.0 h), λ h. e.1 (ap (λ (x : EventId). x.uuid.bytes) h))

abbrev pub DateTime : Type 0
DateTime = ℤ

-- `a < b` on times.
abbrev pub before : DateTime → DateTime → Bool
before a b = ltb_ℤ a b

-- The value is an `i64`.
pub record Amount : Type 0 where
  pub value : ℤ

pub record Currency : Type 0 where
  pub code : String

abbrev pub usd : Currency
usd = record { code = "USD" }

abbrev pub eur : Currency
eur = record { code = "EUR" }

pub data AccountStatus : Type 0 where
  active suspended closed : AccountStatus

pub data AccountType : Type 0 where
  customer operational safeguarding nostro vostro : AccountType

pub record AccountMetadata : Type 0 where
  pub account_type : AccountType
  pub currency : Currency
  pub tags : List (String × String)
  pub regulatory_flags : List String

pub record Account : Type 0 where
  pub id : AccountId
  pub status : AccountStatus
  pub metadata : AccountMetadata
  pub created_at : DateTime
  pub updated_at : DateTime

pub data TransactionType : Type 0 where
  debit credit transfer : TransactionType

pub record TransactionMetadata : Type 0 where
  pub reference : Option String
  pub description : Option String
  pub tags : List (String × String)
  pub regulatory_flags : List String

pub record Balance : Type 0 where
  pub account_id : AccountId
  pub amount : Amount
  pub currency : Currency
  pub as_of : DateTime
  pub version : ℕ

pub record LedgerDigest : Type 0 where
  pub root_hash : String
  pub block_height : ℕ
  pub timestamp : DateTime
  pub transaction_count : ℕ

-- `Option<Box<MerkleNode>>` is a data type of its own.
mutual
  pub data MerkleNode : Type 0 where
    merkle_node : (hash : String) → (left_child right_child : MerkleChild) → MerkleNode

  pub data MerkleChild : Type 0 where
    no_child : MerkleChild
    child : MerkleNode → MerkleChild

pub record MerkleProof : Type 0 where
  pub leaf_hash : String
  pub root_hash : String
  pub proof_path : List String
  pub leaf_index : ℕ
