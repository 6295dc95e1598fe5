-- ===== src/Fuse/Paths/Laws.antt =====
-- The paths that path_resolver.rs generates, against its parsers and tests.
use ledgerfs.Prelude.{◌≡◌, refl, ℕ, suc, ltb, length, true, false, ◌++◌, ok, arith}
use ledgerfs.Prelude.Bytes.{Bytes, codes, bytes_eq}
use ledgerfs.Core.Types.{AccountId, TransactionId}
use ledgerfs.Prelude.Text.{
  IsPlain, reverse_three, ends_with_other, split, split_plain, split-append, starts_with,
  count_slashes, count_slashes-append, count_slashes_plain, IsPlain-append, strip_suffix-append,
}
use ledgerfs.Fuse.Paths.{
  UuidText, IsUuidText, json, log, is_directory, is_valid_file, get_file_type, parse_account_id,
  parse_transaction_id, account_path, balance_path, transaction_log_path, snapshot_path,
  transaction_path,
}

three_parts : (n : ℕ) → ltb (suc (suc (suc n))) 3 ≡ false
three_parts n = ground arith

balance-IsPlain : IsPlain (codes "balance.json")
balance-IsPlain = (
  refl,
  (refl, (refl, (refl, (refl, (refl, (refl, (refl, (refl, (refl, (refl, (refl, tt))))))))))),
)

log-IsPlain : IsPlain (codes "tx.log")
log-IsPlain = (refl, (refl, (refl, (refl, (refl, (refl, tt))))))

snapshot-IsPlain : IsPlain (codes "snapshot.json")
snapshot-IsPlain = (
  refl,
  (
    refl,
    (refl, (refl, (refl, (refl, (refl, (refl, (refl, (refl, (refl, (refl, (refl, tt))))))))))),
  ),
)

module _ (u : UuidText) (documented : IsUuidText u) where
  -- Every path that is generated for an account parses back to the account.
  pub parse_account_id_paths :
      (id : AccountId) (timestamp : Bytes)
      → (parse_account_id u (account_path u id) ≡ ok id)
        × (parse_account_id u (balance_path u id) ≡ ok id)
        × (parse_account_id u (transaction_log_path u id) ≡ ok id)
        × (parse_account_id u (snapshot_path u id timestamp) ≡ ok id)
  unfolding parse_account_id account_path balance_path transaction_log_path snapshot_path split
      bytes_eq
  parse_account_id_paths id timestamp =
      let text = u.to_text id.uuid in
      let plain = documented.plain id.uuid in
      (
        rw (split_plain text plain) (rw documented.parses refl),
        rw (split-append text (codes "balance.json") plain) (rw documented.parses refl),
        rw (split-append text (codes "tx.log") plain) (rw documented.parses refl),
        rw (split-append text (codes "snapshot_" ++ (timestamp ++ codes ".json")) plain) (
            rw documented.parses (
              rw (three_parts (length (split (codes "snapshot_" ++ (timestamp ++ codes ".json")))))
                refl)),
      )

  -- The path that is generated for a transaction parses back to it.
  pub parse_transaction_id-transaction_path :
      (id : TransactionId) → parse_transaction_id u (transaction_path u id) ≡ ok id
  unfolding parse_transaction_id transaction_path split bytes_eq
  parse_transaction_id-transaction_path id =
      let text = u.to_text id.uuid in
      let plain =
        IsPlain-append text (codes ".json") (documented.plain id.uuid)
          (refl, (refl, (refl, (refl, (refl, tt))))) in
      rw (split_plain (text ++ codes ".json") plain)
        (rw (strip_suffix-append text (codes ".json")) (rw documented.parses refl))

  -- An account's own path is a directory, and its balance and its log are files of their types.
  pub account_paths_kinds :
      (id : AccountId)
      → (is_directory (account_path u id) ≡ true)
        × (get_file_type (balance_path u id) ≡ json)
        × (is_valid_file (balance_path u id) ≡ true)
        × (get_file_type (transaction_log_path u id) ≡ log)
        × (is_valid_file (transaction_log_path u id) ≡ true)
  unfolding account_path balance_path transaction_log_path is_directory get_file_type is_valid_file
      starts_with count_slashes bytes_eq
  account_paths_kinds id =
      let text = u.to_text id.uuid in
      let none_in = count_slashes_plain text (documented.plain id.uuid) in
      (
        rw none_in refl,
        rw (count_slashes-append text (codes "/balance.json")) (
            rw none_in (rw (reverse_three (codes "/accounts/") text (codes "/balance.json")) refl)),
        rw (reverse_three (codes "/accounts/") text (codes "/balance.json")) refl,
        rw (count_slashes-append text (codes "/tx.log"))
            (rw none_in (rw (reverse_three (codes "/accounts/") text (codes "/tx.log")) refl)),
        rw (reverse_three (codes "/accounts/") text (codes "/tx.log")) refl,
      )

  -- The snapshot paths that are generated are JSON paths, but not valid files.
  pub snapshot_path_not_valid :
      (id : AccountId) (timestamp : Bytes)
      → IsPlain timestamp
      → is_valid_file (snapshot_path u id timestamp) ≡ false
  unfolding snapshot_path is_valid_file starts_with
  snapshot_path_not_valid id timestamp h =
      let name = codes "snapshot_" ++ (timestamp ++ codes ".json") in
      let before = codes "/accounts/" ++ u.to_text id.uuid in
      let dot : IsPlain (codes ".json") = (refl, (refl, (refl, (refl, (refl, tt))))) in
      let start : IsPlain (codes "snapshot_") =
        (refl, (refl, (refl, (refl, (refl, (refl, (refl, (refl, (refl, tt))))))))) in
      let plain =
        IsPlain-append (codes "snapshot_") (timestamp ++ codes ".json") start
          (IsPlain-append timestamp (codes ".json") h dot) in
      rw
        (ends_with_other before name (codes "balance.json") plain balance-IsPlain
          (λ e. ground arith))
        (rw (ends_with_other before name (codes "tx.log") plain log-IsPlain (λ e. ground arith)) (
          rw
            (ends_with_other before name (codes "snapshot.json") plain snapshot-IsPlain
              (λ e. ground arith))
            refl))
