-- ===== src/Fuse/Paths.antt =====
-- crates/ledgerfs-fuse/src/path_resolver.rs. The text of a `Uuid` and its parser are the `uuid`
-- crate's.
pub mod Laws
pub mod Suite
pub mod Tests
use ledgerfs.Prelude.{
  ℕ, ◌≡◌, String, Bool, true, false, not, ◌&&◌, ◌||◌, Option, none, some, List, [], ◌∷◌, ◌++◌,
  Result, ok, err, ◌==◌, ltb, length, get_or, if◌then◌else◌,
}
use ledgerfs.Prelude.Bytes.{Bytes, codes, bytes_eq}
use ledgerfs.Core.Types.{Uuid, AccountId, TransactionId}
use ledgerfs.Core.Errors.{FuseError, FuseResult, invalid_path}
use ledgerfs.Prelude.Text.{starts_with, ends_with, strip_suffix, count_slashes, split, IsPlain}

-- What is used of the `uuid` crate, and what it documents: the text has no `/` and parses back.
pub record UuidText : Type 0 where
  pub parse_str : Bytes → Option Uuid
  pub to_text : Uuid → Bytes

pub record IsUuidText (u : UuidText) : Type 0 where
  pub parses : (id : Uuid) → u.parse_str (u.to_text id) ≡ some id
  pub plain : (id : Uuid) → IsPlain (u.to_text id)

pub data FileType : Type 0 where
  directory json log pdf unknown : FileType

unfoldable pub is_directory : Bytes → Bool
is_directory path =
    bytes_eq path (codes "/")
    || bytes_eq path (codes "/accounts")
    || bytes_eq path (codes "/transactions")
    || bytes_eq path (codes "/docs")
    || (starts_with path (codes "/accounts/") && count_slashes path == 2)
    || (starts_with path (codes "/docs/") && count_slashes path == 2)

unfoldable pub is_valid_file : Bytes → Bool
is_valid_file path =
    ends_with path (codes "/balance.json")
    || ends_with path (codes "/tx.log")
    || ends_with path (codes "/snapshot.json")
    || (starts_with path (codes "/transactions/") && ends_with path (codes ".json"))
    || (starts_with path (codes "/docs/")
        && (ends_with path (codes ".json") || ends_with path (codes ".pdf")))

unfoldable pub get_file_type : Bytes → FileType
get_file_type path =
    if is_directory path
    then directory
    else if ends_with path (codes ".json")
    then json
    else if ends_with path (codes ".log")
    then log
    else if ends_with path (codes ".pdf")
    then pdf
    else unknown

abbrev pub mime_type : FileType → String
mime_type json = "application/json"
mime_type log = "text/plain"
mime_type pdf = "application/pdf"
mime_type directory = "inode/directory"
mime_type unknown = "application/octet-stream"

abbrev pub is_text : FileType → Bool
is_text json = true
is_text log = true
is_text _ = false

-- `parts[i]`, where the length was tested.
abbrev part : List Bytes → ℕ → Bytes
part parts i = get_or parts i []

-- `parts.len() < 3 || parts[1] != root`
abbrev outside : Bytes → List Bytes → Bool
outside root parts = ltb (length parts) 3 || not (bytes_eq (part parts 1) root)

abbrev or_invalid : {A : Type 0} → Bytes → (Uuid → A) → Option Uuid → FuseResult A
or_invalid path f none = err (invalid_path path)
or_invalid path f (some uuid) = ok (f uuid)

module _ (u : UuidText) where
  pub parse_account_id : Bytes → FuseResult AccountId
  parse_account_id path =
      let parts = split path in
      if outside (codes "accounts") parts
      then err (invalid_path path)
      else or_invalid path (λ uuid. record { uuid = uuid }) (u.parse_str (part parts 2))

  pub parse_transaction_id : Bytes → FuseResult TransactionId
  parse_transaction_id path =
      let parts = split path in
      if outside (codes "transactions") parts
      then err (invalid_path path)
      else elim (strip_suffix (part parts 2) (codes ".json")) [
        | none ↦ err (invalid_path path)
        | some text ↦ or_invalid path (λ uuid. record { uuid = uuid }) (u.parse_str text)
      ]

  unfoldable pub account_path : AccountId → Bytes
  account_path account_id = codes "/accounts/" ++ u.to_text account_id.uuid

  unfoldable pub balance_path : AccountId → Bytes
  balance_path account_id =
      codes "/accounts/" ++ (u.to_text account_id.uuid ++ codes "/balance.json")

  unfoldable pub transaction_log_path : AccountId → Bytes
  transaction_log_path account_id =
      codes "/accounts/" ++ (u.to_text account_id.uuid ++ codes "/tx.log")

  pub snapshot_path : AccountId → Bytes → Bytes
  snapshot_path account_id timestamp =
      codes "/accounts/"
      ++ (u.to_text account_id.uuid ++ (codes "/snapshot_" ++ (timestamp ++ codes ".json")))

  pub transaction_path : TransactionId → Bytes
  transaction_path transaction_id =
      codes "/transactions/" ++ (u.to_text transaction_id.uuid ++ codes ".json")

abbrev pub document_path : Bytes → Bytes → Bytes → Bytes
document_path entity_type entity_id doc_name =
    codes "/docs/" ++ (entity_type ++ (codes "/" ++ (entity_id ++ (codes "/" ++ doc_name))))
