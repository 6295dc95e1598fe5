-- ===== src/Fuse/Filesystem/Reads.antt =====
-- `read` of crates/ledgerfs-fuse/src/filesystem.rs.
use ledgerfs.Prelude.{
  take_all, ℕ, zero, suc, List, [], ◌∷◌, ◌+◌, ◌<◌, ◌≤◌, ◌-◌, ◌≡◌, ◌^◌, refl, some, length,
  length-drop, take, drop, get_elem?, arith, ok, true, false,
}
use ledgerfs.Prelude.Int.{pos}
use ledgerfs.Prelude.Bytes.{Bytes, codes}
use ledgerfs.Core.Types.{AccountId, Balance}
use ledgerfs.Core.Events.{TransactionProcessedEvent}
use ledgerfs.Prelude.Text.{split, split-append, ends_with, starts_with, reverse_three}
use ledgerfs.Fuse.Paths.{IsUuidText, balance_path, transaction_log_path}
use ledgerfs.Fuse.Inodes.{InodeTable, get_path}
use ledgerfs.Fuse.Attributes.{Services, reply}
use ledgerfs.Fuse.Filesystem.{
  slice, content, read, parse_id, of_third_part, read_account_balance, read_account_transactions,
}

drop_all : {A : Type 0} (n : ℕ) (xs : List A) → length xs ≤ n → drop n xs ≡ []
drop_all zero [] h = refl
drop_all zero (x ∷ xs) h = ground arith
drop_all (suc n) [] h = refl
drop_all (suc n) (x ∷ xs) h = ground (arith, drop_all n xs)

take_nil : {A : Type 0} (n : ℕ) → take {A = A} n [] ≡ []
take_nil zero = refl
take_nil (suc n) = refl

module _ (s : Services) where
  -- An offset and a size that the kernel sends, whose sum fits a `u64`, are answered by the window of
  -- the content that they name; it is empty behind the end.
  slice_window :
      (offset size : ℕ) (bytes : Bytes)
      → offset + size < 2 ^ 64
      → slice s (pos offset) size bytes ≡ reply (take size (drop offset bytes))
  unfolding slice
  slice_window offset size bytes h = ground (
    arith,
    take_all size (drop offset bytes),
    length-drop offset bytes,
    drop_all offset bytes,
    take_nil size,
    take_all (length bytes - offset) (drop offset bytes),
  )

  balance_path_ends :
      (id : AccountId) → ends_with (balance_path s.uuid_text id) (codes "/balance.json") ≡ true
  unfolding balance_path starts_with
  balance_path_ends id =
      rw (reverse_three (codes "/accounts/") (s.uuid_text.to_text id.uuid) (codes "/balance.json"))
        refl

  third_part :
      (id : AccountId)
      → IsUuidText s.uuid_text
      → get_elem? (split (balance_path s.uuid_text id)) 2 ≡ some (s.uuid_text.to_text id.uuid)
  unfolding balance_path split
  third_part id documented =
      rw
        (split-append (s.uuid_text.to_text id.uuid) (codes "balance.json")
          (documented.plain id.uuid))
        refl

  content-balance_path :
      (id : AccountId) (balance : Balance)
      → IsUuidText s.uuid_text
      → s.get_balance id ≡ ok (some balance)
      → content s (balance_path s.uuid_text id) ≡ reply (ok (s.balance_json balance))
  unfolding content read_account_balance parse_id
  content-balance_path id balance documented k = rw (balance_path_ends id) (
      rw (third_part id documented, of_third_part)
        (rw (documented.parses, read_account_balance, parse_id) (rw k refl)))

  -- Reading the balance file of an account, once the file has an inode, gives the window of the
  -- balance's JSON text; without a balance it fails.
  pub read-balance_path :
      (t : InodeTable) (ino offset size : ℕ) (id : AccountId) (balance : Balance)
      → IsUuidText s.uuid_text
      → get_path t ino ≡ some (balance_path s.uuid_text id)
      → s.get_balance id ≡ ok (some balance)
      → offset + size < 2 ^ 64
      → read s t ino (pos offset) size ≡ reply (take size (drop offset (s.balance_json balance)))
  unfolding read
  read-balance_path t ino offset size id balance documented h k fits =
      rw (h, read)
        (rw (content-balance_path id balance documented k)
          (slice_window offset size (s.balance_json balance) fits))

  third_part_log :
      (id : AccountId)
      → IsUuidText s.uuid_text
      → get_elem? (split (transaction_log_path s.uuid_text id)) 2
        ≡ some (s.uuid_text.to_text id.uuid)
  unfolding transaction_log_path split
  third_part_log id documented =
      rw (split-append (s.uuid_text.to_text id.uuid) (codes "tx.log") (documented.plain id.uuid))
        refl

  log_path_ends :
      (id : AccountId)
      → (ends_with (transaction_log_path s.uuid_text id) (codes "/balance.json") ≡ false)
        × (ends_with (transaction_log_path s.uuid_text id) (codes "/tx.log") ≡ true)
  unfolding transaction_log_path starts_with
  log_path_ends id =
      let text = s.uuid_text.to_text id.uuid in
      (
        rw (reverse_three (codes "/accounts/") text (codes "/tx.log")) refl,
        rw (reverse_three (codes "/accounts/") text (codes "/tx.log")) refl,
      )

  content-transaction_log_path :
      (id : AccountId) (history : List TransactionProcessedEvent)
      → IsUuidText s.uuid_text
      → s.get_transaction_history id (some 100) ≡ ok history
      → content s (transaction_log_path s.uuid_text id)
        ≡ reply (ok (s.transactions_json id history))
  unfolding content read_account_transactions parse_id
  content-transaction_log_path id history documented k = rw ((log_path_ends id).0) (
      rw ((log_path_ends id).1) (
        rw (third_part_log id documented, of_third_part)
          (rw (documented.parses, read_account_transactions, parse_id) (rw k refl))))

  pub read-transaction_log_path :
      (t : InodeTable) (ino offset size : ℕ) (id : AccountId)
      (history : List TransactionProcessedEvent)
      → IsUuidText s.uuid_text
      → get_path t ino ≡ some (transaction_log_path s.uuid_text id)
      → s.get_transaction_history id (some 100) ≡ ok history
      → offset + size < 2 ^ 64
      → read s t ino (pos offset) size
        ≡ reply (take size (drop offset (s.transactions_json id history)))
  unfolding read
  read-transaction_log_path t ino offset size id history documented h k fits =
      rw (h, read)
        (rw (content-transaction_log_path id history documented k)
          (slice_window offset size (s.transactions_json id history) fits))
