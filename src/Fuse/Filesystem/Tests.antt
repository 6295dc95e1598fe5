-- ===== src/Fuse/Filesystem/Tests.antt =====
-- Requests at a concrete file system with one account.
use ledgerfs.Prelude.{
  ◌≡◌, ℕ, refl, List, [], ◌∷◌, Bool, false, some, ok, arith, take, drop, if◌then◌else◌,
}
use ledgerfs.Prelude.Int.{pos}
use ledgerfs.Prelude.Bytes.{Bytes, codes, bytes_eq}
use ledgerfs.Core.Types.{Balance, usd}
use ledgerfs.Prelude.Text.{starts_with, count_slashes}
use ledgerfs.Fuse.Paths.{balance_path}
use ledgerfs.Fuse.Paths.Tests.{shifted, shifted-IsUuidText, holder}
use ledgerfs.Fuse.Inodes.{
  InodeTable, new_table, get_path, find_path, find_inode, create_inode, get_or_create_inode,
}
use ledgerfs.Fuse.Inodes.Laws.{new_table-IsValid, get_or_create_inode-IsValid}
use ledgerfs.Fuse.Filesystem.Panics.{read-lookup_panics}
use ledgerfs.Fuse.Attributes.{Services, panics, create_file_attr, reply, directory, regular_file}
use ledgerfs.Fuse.Filesystem.{lookup, getattr, entries, read}
use ledgerfs.Fuse.Filesystem.Requests.{
  Request, look_up, read_dir, Extends, serve_all, serve_all_keeps,
}
use ledgerfs.Fuse.Filesystem.Lookups.{getattr-lookup, lookup-entries}
use ledgerfs.Fuse.Filesystem.Reads.{read-balance_path}

abbrev holding : Balance
holding = record {
  account_id = holder;
  amount = record { value = pos 50 };
  currency = usd;
  as_of = pos 5;
  version = 1;
}

abbrev pub services : Services
services = record {
  get_balance = λ id. ok (some holding);
  find_accounts = ok [];
  get_transaction_history = λ id limit. ok [];
  balance_json = λ b. codes "{\"amount\": 50}";
  transactions_json = λ id events. codes "[]";
  uuid_text = shifted;
}

abbrev some_requests : List Request
some_requests = look_up 7 1 (codes "docs") ∷ look_up 8 2 (codes "abc") ∷ read_dir 5 (pos 0) 10 ∷ []

serve_all_keeps_example : Extends new_table (serve_all services new_table some_requests)
serve_all_keeps_example = serve_all_keeps services new_table some_requests new_table-IsValid

root_path : get_path new_table 1 ≡ some (codes "/")
unfolding get_path find_path
root_path = refl

getattr-lookup_example :
    (inode : ℕ) × (is_dir : Bool) × ((lookup 7 new_table 1 (codes "docs")).0
      ≡ reply (create_file_attr 7 inode 0 is_dir))
    × (getattr 9 (serve_all services (lookup 7 new_table 1 (codes "docs")).1 some_requests) inode
        ≡ reply (create_file_attr 9 inode (if is_dir then 0 else 1024) is_dir))
getattr-lookup_example =
    getattr-lookup services 7 9 new_table 1 (codes "docs") (codes "/") some_requests
      new_table-IsValid (λ e. ground arith) root_path

-- The table after the inode 5 was handed out for a path.
abbrev account_dir : Bytes
account_dir = codes "/accounts/abc"

abbrev with_dir : InodeTable
with_dir = (get_or_create_inode new_table account_dir).1

with_dir_path : get_path with_dir 5 ≡ some account_dir
unfolding get_or_create_inode create_inode get_path find_path find_inode bytes_eq
with_dir_path = refl

lookup-entries_test :
    (balance tx : ℕ) × ((entries services with_dir 5 account_dir).0
      ≡ reply (
          (codes ".", 5, directory)
          ∷ (codes "..", 2, directory)
          ∷ (codes "balance.json", balance, regular_file)
          ∷ (codes "tx.log", tx, regular_file)
          ∷ []))
    × ((lookup 7
          (serve_all services (entries services with_dir 5 account_dir).1 some_requests)
          5
          (codes "balance.json")).0
        ≡ reply (create_file_attr 7 balance 0 false))
    × ((lookup 7
          (serve_all services (entries services with_dir 5 account_dir).1 some_requests)
          5
          (codes "tx.log")).0
        ≡ reply (create_file_attr 7 tx 0 false))
unfolding starts_with count_slashes
lookup-entries_test =
    lookup-entries services 7 with_dir 5 account_dir some_requests
      (get_or_create_inode-IsValid new_table account_dir new_table-IsValid) with_dir_path refl

abbrev with_balance : InodeTable
with_balance = (get_or_create_inode new_table (balance_path shifted holder)).1

with_balance_path : get_path with_balance 5 ≡ some (balance_path shifted holder)
unfolding get_or_create_inode create_inode get_path find_path find_inode bytes_eq balance_path
with_balance_path = refl

read-balance_path_test :
    read services with_balance 5 (pos 3) 4 ≡ reply (take 4 (drop 3 (codes "{\"amount\": 50}")))
read-balance_path_test =
    read-balance_path services with_balance 5 3 4 holder holding shifted-IsUuidText
      with_balance_path refl (omega arith)

read-lookup_panics_example :
    (inode : ℕ) × ((lookup 7 new_table 1 (codes "balance.json")).0
      ≡ reply (create_file_attr 7 inode 0 false))
    × (read services
          (serve_all services (lookup 7 new_table 1 (codes "balance.json")).1 some_requests)
          inode
          (pos 0)
          4096
        ≡ panics)
read-lookup_panics_example =
    read-lookup_panics services 7 new_table some_requests (pos 0) 4096 new_table-IsValid root_path
