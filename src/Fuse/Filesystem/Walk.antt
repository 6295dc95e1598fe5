-- ===== src/Fuse/Filesystem/Walk.antt =====
-- From the root of crates/ledgerfs-fuse/src/filesystem.rs to the content of a file.
use ledgerfs.Prelude.{ℕ, suc, ◌+◌, ◌<◌, ◌^◌, ◌≡◌, some, List, ok, get_elem?, take, drop}
use ledgerfs.Prelude.Int.{pos}
use ledgerfs.Prelude.Bytes.{codes}
use ledgerfs.Core.Types.{Account, Balance}
use ledgerfs.Core.Events.{TransactionProcessedEvent}
use ledgerfs.Fuse.Paths.{IsUuidText, account_path, balance_path, transaction_log_path}
use ledgerfs.Fuse.Inodes.{InodeTable, get_path}
use ledgerfs.Fuse.Inodes.Laws.{IsValid}
use ledgerfs.Fuse.Attributes.{Services, reply, directory, regular_file}
use ledgerfs.Fuse.Filesystem.{read, readdir}
use ledgerfs.Fuse.Filesystem.Requests.{Request, serve_all, serve_all_keeps, Extends-readdir}
use ledgerfs.Fuse.Filesystem.Reads.{read-balance_path, read-transaction_log_path}
use ledgerfs.Fuse.Filesystem.Listings.{Lists, readdir-accounts, readdir-account}

module _ (s : Services) where
  -- The tables of a walk: a listing of the accounts and any requests, and then a listing of an
  -- account's directory and any requests.
  abbrev pub account_table : InodeTable → ℕ → List Request → InodeTable
  account_table t room requests = serve_all s (readdir s t 2 (pos 0) room).1 requests

  abbrev pub files_table : InodeTable → ℕ → ℕ → List Request → InodeTable
  files_table t dir room requests = serve_all s (readdir s t dir (pos 0) room).1 requests

  -- The walk from a valid table to the balance and the log of an account.
  pub read-readdir_account :
      (t : InodeTable) (room room' : ℕ) (requests later : List Request) (accounts : List Account)
      (i : ℕ) (acc : Account) (balance : Balance) (history : List TransactionProcessedEvent)
      (offset size : ℕ)
      → IsUuidText s.uuid_text
      → IsValid t
      → get_path t 2 ≡ some (codes "/accounts")
      → s.find_accounts ≡ ok accounts
      → get_elem? accounts i ≡ some acc
      → s.get_balance acc.id ≡ ok (some balance)
      → s.get_transaction_history acc.id (some 100) ≡ ok history
      → suc (suc i) < room
      → 3 < room'
      → offset + size < 2 ^ 64
      → (dir file log : ℕ) × Lists s t 2 room
          (suc (suc i))
          (s.uuid_text.to_text acc.id.uuid)
          dir
          directory
        × Lists s
            (account_table t room requests)
            dir
            room'
            2
            (codes "balance.json")
            file
            regular_file
        × Lists s (account_table t room requests) dir room' 3 (codes "tx.log") log regular_file
        × (read s
              (files_table (account_table t room requests) dir room' later)
              file
              (pos offset)
              size
            ≡ reply (take size (drop offset (s.balance_json balance))))
        × (read s
              (files_table (account_table t room requests) dir room' later)
              log
              (pos offset)
              size
            ≡ reply (take size (drop offset (s.transactions_json acc.id history))))
  read-readdir_account t room room' requests later accounts i acc balance history offset size
        documented v root found here k l fits fits' window =
      let (dir, listed, path) = readdir-accounts s t room accounts i acc v root found here fits in
      let first = (readdir s t 2 (pos 0) room).1 in
      let u = account_table t room requests in
      let e = serve_all_keeps s first requests (Extends-readdir s t 2 (pos 0) room v).valid in
      let (file, log, file_listed, log_listed, file_path, log_path) =
        readdir-account s u dir room' acc.id documented e.valid
          (e.keeps dir (account_path s.uuid_text acc.id) path) fits' in
      let second = (readdir s u dir (pos 0) room').1 in
      let w = files_table u dir room' later in
      let f =
        serve_all_keeps s second later (Extends-readdir s u dir (pos 0) room' e.valid).valid in
      (
        dir,
        file,
        log,
        listed,
        file_listed,
        log_listed,
        read-balance_path s w file offset size acc.id balance documented
            (f.keeps file (balance_path s.uuid_text acc.id) file_path) k window,
        read-transaction_log_path s w log offset size acc.id history documented
            (f.keeps log (transaction_log_path s.uuid_text acc.id) log_path) l window,
      )
