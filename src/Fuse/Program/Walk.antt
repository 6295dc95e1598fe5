-- ===== src/Fuse/Program/Walk.antt =====
-- A walk through the file system of the program of crates/ledgerfs-fuse/src/bin/ledgerfs-fuse.rs.
use mathlib.Core.List.{Permᴰ}
use ledgerfs.Prelude.{ℕ, suc, ◌+◌, ◌<◌, ◌^◌, ◌≡◌, refl, some, List, ok, get_elem?, take, drop}
use ledgerfs.Prelude.Int.{pos}
use ledgerfs.Prelude.Bytes.{codes}
use ledgerfs.Core.Types.{AccountId, Account, Balance}
use ledgerfs.Fuse.Paths.{IsUuidText}
use ledgerfs.Fuse.Inodes.{InodeTable, new_table, get_path, find_path}
use ledgerfs.Fuse.Inodes.Laws.{new_table-IsValid}
use ledgerfs.Fuse.Attributes.{Services, reply, directory, regular_file}
use ledgerfs.Fuse.Filesystem.{read}
use ledgerfs.Fuse.Filesystem.Requests.{Request, serve_all, serve_all_keeps}
use ledgerfs.Fuse.Filesystem.Listings.{Lists}
use ledgerfs.Fuse.Filesystem.Walk.{account_table, files_table, read-readdir_account}
use ledgerfs.Fuse.Program.{Environment, main_services, mock_transactions}
use ledgerfs.Fuse.Program.Laws.{found-HasBalance, history_of}

accounts_inode : get_path new_table 2 ≡ some (codes "/accounts")
unfolding get_path find_path
accounts_inode = refl

module _ (env : Environment) (a b : AccountId) where
  abbrev pub served : Services
  served = main_services env a b

  -- The table of the program's file system after some requests.
  abbrev pub begun : List Request → InodeTable
  begun requests = serve_all served new_table requests

  -- In the program, with any order of its maps and any other requests before, between and after: a
  -- listing of `/accounts` has each account that is found; a listing of the inode that it gives has
  -- the balance file and the log; and reads of their inodes, at an offset and a size whose sum fits 64
  -- bits, are the windows of the texts of a balance of the account, in its currency, and of the five
  -- sample transactions. The listings have room for the entries.
  pub read-readdir :
      (before between after : List Request) (room room' : ℕ) (accounts : List Account) (i : ℕ)
      (acc : Account) (offset size : ℕ)
      → IsUuidText served.uuid_text
      → ((l : List Account) → Permᴰ (env.order l) l)
      → served.find_accounts ≡ ok accounts
      → get_elem? accounts i ≡ some acc
      → suc (suc i) < room
      → 3 < room'
      → offset + size < 2 ^ 64
      → (balance : Balance) × (dir file log : ℕ) × (balance.account_id ≡ acc.id)
        × (balance.currency ≡ acc.metadata.currency)
        × Lists served
            (begun before)
            2
            room
            (suc (suc i))
            (served.uuid_text.to_text acc.id.uuid)
            dir
            directory
        × Lists served
            (account_table served (begun before) room between)
            dir
            room'
            2
            (codes "balance.json")
            file
            regular_file
        × Lists served
            (account_table served (begun before) room between)
            dir
            room'
            3
            (codes "tx.log")
            log
            regular_file
        × (read served
              (files_table served
                (account_table served (begun before) room between)
                dir
                room'
                after)
              file
              (pos offset)
              size
            ≡ reply (take size (drop offset (served.balance_json balance))))
        × (read served
              (files_table served
                (account_table served (begun before) room between)
                dir
                room'
                after)
              log
              (pos offset)
              size
            ≡ reply (
                take size (
                  drop offset (
                    served.transactions_json acc.id
                      (mock_transactions env.history_clock env.fresh acc.id env.drawn 0 5)))))
  read-readdir before between after room room' accounts i acc offset size documented any_order
        listed here fits fits' window =
      let kept = serve_all_keeps served new_table before new_table-IsValid in
      let (balance, k, own, currency) =
        found-HasBalance env a b accounts i acc any_order listed here in
      let (dir, file, log, in_accounts, file_listed, log_listed, file_read, log_read) =
        read-readdir_account served (begun before) room room' between after accounts i acc balance
          (mock_transactions env.history_clock env.fresh acc.id env.drawn 0 5) offset size
          documented kept.valid (kept.keeps 2 (codes "/accounts") accounts_inode) listed here k
          (history_of env a b acc.id) fits fits' window in
      (
        balance, dir, file, log, own, currency, in_accounts, file_listed, log_listed, file_read,
        log_read,
      )
