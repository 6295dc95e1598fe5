-- ===== src/Fuse/Program/Tests.antt =====
-- The program with two accounts.
use mathlib.Core.List.Permᴰ
use ledgerfs.Prelude.{String, List, err, ℕ, ◌≡◌, refl, [], ◌∷◌, ok, take, drop, arith}
use ledgerfs.Prelude.Int.{pos}
use ledgerfs.Prelude.Bytes.{codes, bytes_eq}
use ledgerfs.Core.Types.{AccountId, Account, Balance, usd, eur}
use ledgerfs.Fuse.Paths.Tests.{shifted, shifted-IsUuidText, holder}
use ledgerfs.Fuse.Attributes.{reply, directory, regular_file}
use ledgerfs.Fuse.Filesystem.{read}
use ledgerfs.Fuse.Mount.{Outside, served as mount_ended}
use ledgerfs.Fuse.Program.Main.{returned, panicked, greeted, main, main_hides}
use ledgerfs.Fuse.Program.{Environment, main_services, mock_account, new_accounts, hash_insert}
use ledgerfs.Fuse.Program.Walk.{served, begun, read-readdir}
use ledgerfs.Fuse.Filesystem.Requests.{look_up, read_dir}
use ledgerfs.Fuse.Filesystem.Listings.{Lists}
use ledgerfs.Fuse.Filesystem.Walk.{account_table, files_table}

abbrev environment : Environment
environment = record {
  balance_clock = λ i. pos i;
  account_clock = λ i. pos i;
  history_clock = λ i. pos i;
  drawn = 5;
  fresh = λ i. record { uuid = record { bytes = i ∷ [] } };
  order = λ l. l;
  balance_json = λ b. codes "{\"amount\": 100000}";
  transactions_json = λ id events. codes "[]";
  uuid_text = shifted;
}

abbrev other : AccountId
other = record { uuid = record { bytes = 4 ∷ [] } }

abbrev holder_account : Account
holder_account = mock_account holder usd "cust_001" ("KYC_VERIFIED" ∷ []) (pos 0) (pos 1)

abbrev other_account : Account
other_account =
    mock_account other eur "cust_002" ("KYC_VERIFIED" ∷ "PEP_CHECK" ∷ []) (pos 2) (pos 3)

both_found :
    (main_services environment holder other).find_accounts
    ≡ ok (holder_account ∷ other_account ∷ [])
unfolding main_services new_accounts hash_insert bytes_eq
both_found = refl

read-readdir_example :
    let s = served environment holder other in
    let t = begun environment holder other (read_dir 1 (pos 0) 9 ∷ []) in
    (balance : Balance) × (dir file log : ℕ) × (balance.account_id ≡ other)
    × (balance.currency ≡ eur)
    × Lists s t 2 4 3 (shifted.to_text other.uuid) dir directory
    × Lists s
        (account_table s t 4 (look_up 7 1 (codes "docs") ∷ []))
        dir
        8
        2
        (codes "balance.json")
        file
        regular_file
    × Lists s
        (account_table s t 4 (look_up 7 1 (codes "docs") ∷ []))
        dir
        8
        3
        (codes "tx.log")
        log
        regular_file
    × (read s
          (files_table s (account_table s t 4 (look_up 7 1 (codes "docs") ∷ [])) dir 8 [])
          file
          (pos 3)
          4
        ≡ reply (take 4 (drop 3 (codes "{\"amount\": 100000}"))))
    × (read s
          (files_table s (account_table s t 4 (look_up 7 1 (codes "docs") ∷ [])) dir 8 [])
          log
          (pos 3)
          4
        ≡ reply (take 4 (drop 3 (codes "[]"))))
unfolding main_services
read-readdir_example =
    read-readdir environment holder other (read_dir 1 (pos 0) 9 ∷ [])
      (look_up 7 1 (codes "docs") ∷ []) [] 4 8 (holder_account ∷ other_account ∷ []) 1 other_account
      3 4 shifted-IsUuidText (λ l. Permᴰ.refl l) both_found refl (omega arith) (omega arith)
      (omega arith)

-- A world of the lines printed, in which the device of a mount is missing.
abbrev missing : Outside (List String) String String
missing = record {
  command = λ program args lines. (err "no command", lines);
  create_dir_all = λ path lines. (ok tt, lines);
  mount2 = λ fs path options lines. (ok (err "no device"), lines);
  mount_or_interrupt = λ fs path options lines. (mount_ended (ok (err "no device")), lines);
}

abbrev print : String → List String → List String
print line lines = line ∷ lines

main_hides_test : main missing print environment holder other ("ledgerfs-fuse" ∷ "/mnt" ∷ []) [] ≡ (
  returned (ok tt),
  print "LedgerFS unmounted successfully" (
      greeted missing print environment holder other "ledgerfs-fuse"
        ("ledgerfs-fuse" ∷ "/mnt" ∷ [])
        []),
)
main_hides_test =
    main_hides missing print environment holder other "ledgerfs-fuse" ("/mnt" ∷ []) [] _ _
      (ok (err "no device")) refl refl

main_without_arguments_test :
    main missing print environment holder other [] []
    ≡ (panicked, "LedgerFS FUSE - Mounting at: /tmp/ledgerfs" ∷ [])
unfolding main
main_without_arguments_test = refl
