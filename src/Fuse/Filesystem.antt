-- ===== src/Fuse/Filesystem.antt =====
-- `LedgerFilesystem` of crates/ledgerfs-fuse/src/filesystem.rs, its requests one after the other.
-- The repositories are the trait objects of crates/ledgerfs-core/src/traits.rs.
pub mod Requests
pub mod Lookups
pub mod Reads
pub mod Panics
pub mod Listings
pub mod Walk
pub mod Tests
use ledgerfs.Prelude.{
  ℕ, suc, ◌+◌, ◌-◌, ◌/◌, ◌%◌, ◌^◌, ◌≡◌, Bool, true, false, ◌&&◌, ◌||◌, Option, none, some, List, [],
  ◌∷◌, ◌++◌, Result, ok, err, ◌>>=◌, map_err, ◌==◌, ltb, leb, if◌then◌else◌, length, take, drop,
  get_elem?, map,
}
use ledgerfs.Prelude.Int.{ℤ, as_u64}
use ledgerfs.Prelude.Bytes.{Bytes, codes, bytes_eq}
use ledgerfs.Core.Types.{AccountId, Account, Balance}
use ledgerfs.Core.Events.{TransactionProcessedEvent}
use ledgerfs.Core.Errors.{
  LedgerError, LedgerResult, FuseError, FuseResult, invalid_path, file_not_found, ledger_error,
}
use ledgerfs.Prelude.Text.{starts_with, ends_with, count_slashes, split}
use ledgerfs.Fuse.Paths.{UuidText}
use ledgerfs.Fuse.Attributes.{
  Services, FileKind, FileAttr, create_file_attr, Reply, reply, enoent, panics, directory,
  regular_file,
}
use ledgerfs.Fuse.Inodes.{InodeTable, get_path, get_or_create_inode}

abbrev pub is_account_dir : Bytes → Bool
is_account_dir path = starts_with path (codes "/accounts/") && count_slashes path == 2

abbrev pub is_docs_dir : Bytes → Bool
is_docs_dir path = starts_with path (codes "/docs/") && count_slashes path == 2

-- The test of `lookup`, which leaves the root out.
unfoldable pub lookup_is_dir : Bytes → Bool
lookup_is_dir path =
    bytes_eq path (codes "/accounts")
    || bytes_eq path (codes "/transactions")
    || bytes_eq path (codes "/docs")
    || is_account_dir path
    || is_docs_dir path

-- The test of `getattr`.
unfoldable pub getattr_is_dir : Bytes → Bool
getattr_is_dir path =
    bytes_eq path (codes "/")
    || bytes_eq path (codes "/accounts")
    || bytes_eq path (codes "/transactions")
    || bytes_eq path (codes "/docs")
    || is_account_dir path
    || is_docs_dir path

unfoldable pub join : Bytes → Bytes → Bytes
join parent_path name =
    if bytes_eq parent_path (codes "/")
    then codes "/" ++ name
    else parent_path ++ (codes "/" ++ name)

unfoldable pub lookup : ℕ → InodeTable → ℕ → Bytes → Reply FileAttr × InodeTable
lookup now self parent name = elim (get_path self parent) [
  | none ↦ (enoent, self)
  | some parent_path ↦
      let full_path = join parent_path name in
      let (inode, self') = get_or_create_inode self full_path in
      (reply (create_file_attr now inode 0 (lookup_is_dir full_path)), self')
]

unfoldable pub getattr : ℕ → InodeTable → ℕ → Reply FileAttr
getattr now self ino = elim (get_path self ino) [
  | none ↦ enoent
  | some path ↦
      let is_dir = getattr_is_dir path in
      reply (create_file_attr now ino (if is_dir then 0 else 1024) is_dir)
]

module _ (s : Services) where
  pub parse_id : Bytes → FuseResult AccountId
  parse_id text = elim (s.uuid_text.parse_str text) [
    | none ↦ err (invalid_path text)
    | some uuid ↦ ok (record { uuid = uuid })
  ]

  pub read_account_balance : Bytes → FuseResult Bytes
  read_account_balance text = do
    account_id ← parse_id text
    found ← map_err ledger_error (s.get_balance account_id)
    elim found [
      | none ↦ err (file_not_found (codes "balance for " ++ s.uuid_text.to_text account_id.uuid))
      | some balance ↦ ok (s.balance_json balance)
    ]

  pub read_account_transactions : Bytes → FuseResult Bytes
  read_account_transactions text = do
    account_id ← parse_id text
    transactions ← map_err ledger_error (s.get_transaction_history account_id (some 100))
    ok (s.transactions_json account_id transactions)

  pub list_accounts : FuseResult (List Bytes)
  list_accounts = do
    accounts ← map_err ledger_error s.find_accounts
    ok (map (λ (acc : Account). s.uuid_text.to_text acc.id.uuid) accounts)

  -- `path.split('/').nth(2).unwrap()`, and the file's text.
  abbrev pub of_third_part : (Bytes → FuseResult Bytes) → Bytes → Reply (FuseResult Bytes)
  of_third_part f path = elim (get_elem? (split path) 2) [
    | none ↦ panics
    | some text ↦ reply (f text)
  ]

  pub content : Bytes → Reply (FuseResult Bytes)
  content path =
      if ends_with path (codes "/balance.json")
      then of_third_part read_account_balance path
      else if ends_with path (codes "/tx.log")
      then of_third_part read_account_transactions path
      else reply (err (file_not_found path))

  -- The slice that is replied, with `usize` arithmetic that wraps and a slice that checks its
  -- bounds.
  pub slice : ℤ → ℕ → Bytes → Reply Bytes
  slice offset size bytes =
      let begin = as_u64 offset in
      let sum = (begin + size) % 2 ^ 64 in
      let end = if ltb sum (length bytes) then sum else length bytes in
      if leb (length bytes) begin
      then reply []
      else if ltb end begin
      then panics
      else reply (take (end - begin) (drop begin bytes))

  abbrev pub serve_content : ℤ → ℕ → Reply (FuseResult Bytes) → Reply Bytes
  serve_content offset size (reply (ok bytes)) = slice offset size bytes
  serve_content offset size (reply (err e)) = enoent
  serve_content offset size enoent = enoent
  serve_content offset size panics = panics

  pub read : InodeTable → ℕ → ℤ → ℕ → Reply Bytes
  read self ino offset size = elim (get_path self ino) [
    | none ↦ enoent
    | some path ↦ serve_content offset size (content path)
  ]

  abbrev pub Dirent : Type 0
  Dirent = Bytes × ℕ × FileKind

  -- The loop over the accounts takes an inode for each.
  pub account_entries : InodeTable → List Bytes → List Dirent × InodeTable
  account_entries self [] = ([], self)
  account_entries self (account_id ∷ accounts) =
      let (inode, self') = get_or_create_inode self (codes "/accounts/" ++ account_id) in
      let (entries, last) = account_entries self' accounts in
      ((account_id, inode, directory) ∷ entries, last)

  -- A listing that fails is left out.
  abbrev listed : FuseResult (List Bytes) → List Bytes
  listed (ok accounts) = accounts
  listed (err e) = []

  pub entries : InodeTable → ℕ → Bytes → Reply (List Dirent) × InodeTable
  entries self ino path =
      if bytes_eq path (codes "/")
      then (
        reply (
            (codes ".", 1, directory)
            ∷ (codes "..", 1, directory)
            ∷ (codes "accounts", 2, directory)
            ∷ (codes "transactions", 3, directory)
            ∷ (codes "docs", 4, directory)
            ∷ []),
        self,
      )
      else if bytes_eq path (codes "/accounts")
      then (let (accounts, self') = account_entries self (listed list_accounts) in
          (reply ((codes ".", 2, directory) ∷ (codes "..", 1, directory) ∷ accounts), self'))
      else if is_account_dir path
      then (let (balance_inode, self') = get_or_create_inode self (path ++ codes "/balance.json") in
          let (tx_inode, last) = get_or_create_inode self' (path ++ codes "/tx.log") in
          (
            reply (
                (codes ".", ino, directory)
                ∷ (codes "..", 2, directory)
                ∷ (codes "balance.json", balance_inode, regular_file)
                ∷ (codes "tx.log", tx_inode, regular_file)
                ∷ []),
            last,
          ))
      else if bytes_eq path (codes "/transactions")
      then (reply ((codes ".", 3, directory) ∷ (codes "..", 1, directory) ∷ []), self)
      else if bytes_eq path (codes "/docs")
      then (reply ((codes ".", 4, directory) ∷ (codes "..", 1, directory) ∷ []), self)
      else (enoent, self)

  -- The entries behind the offset, each with the offset of its successor, as many as the kernel's
  -- buffer has `room` for.
  pub number_from : ℕ → List Dirent → List (ℕ × Dirent)
  number_from i [] = []
  number_from i (entry ∷ rest) = (i + 1, entry) ∷ number_from (i + 1) rest

  abbrev page : ℕ → ℕ → Reply (List Dirent) → Reply (List (ℕ × Dirent))
  page start room (reply es) = reply (take room (drop start (number_from 0 es)))
  page start room enoent = enoent
  page start room panics = panics

  pub readdir : InodeTable → ℕ → ℤ → ℕ → Reply (List (ℕ × Dirent)) × InodeTable
  readdir self ino offset room = elim (get_path self ino) [
    | none ↦ (enoent, self)
    | some path ↦ let (r, self') = entries self ino path in (page (as_u64 offset) room r, self')
  ]
