-- ===== src/Fuse/Paths/Tests.antt =====
-- Paths for a concrete text of identifiers: each byte is one character behind `/`.
use ledgerfs.Prelude.{◌≡◌, ℕ, refl, ◌+◌, ◌-◌, [], ◌∷◌, some, ok, true, false, map, arith, ap}
use ledgerfs.Prelude.Bytes.{Bytes, codes}
use ledgerfs.Core.Types.{Uuid, AccountId, TransactionId}
use ledgerfs.Prelude.Text.{IsPlain}
use ledgerfs.Fuse.Paths.{
  UuidText, IsUuidText, json, log, is_directory, is_valid_file, get_file_type, parse_account_id,
  parse_transaction_id, account_path, balance_path, transaction_log_path, snapshot_path,
  transaction_path,
}
use ledgerfs.Fuse.Paths.Laws.{
  parse_account_id_paths, parse_transaction_id-transaction_path, account_paths_kinds,
  snapshot_path_not_valid,
}

shifted-IsPlain : (b : Bytes) → IsPlain (map (λ (c : ℕ). c + 48) b)
shifted-IsPlain [] = tt
shifted-IsPlain (c ∷ b) = (ground arith, shifted-IsPlain b)

shifted_back : (b : Bytes) → map (λ (c : ℕ). c - 48) (map (λ (c : ℕ). c + 48) b) ≡ b
shifted_back [] = refl
shifted_back (c ∷ b) = ground (arith, shifted_back b)

abbrev pub shifted : UuidText
shifted = record {
  parse_str = λ b. some (record { bytes = map (λ (c : ℕ). c - 48) b });
  to_text = λ id. map (λ (c : ℕ). c + 48) id.bytes;
}

abbrev the_uuid : Bytes → Uuid
the_uuid b = record { bytes = b }

pub shifted-IsUuidText : IsUuidText shifted
shifted-IsUuidText = record {
  parses = λ id. ap (λ (b : Bytes). some (the_uuid b)) (shifted_back id.bytes);
  plain = λ id. shifted-IsPlain id.bytes;
}

abbrev pub holder : AccountId
holder = record { uuid = record { bytes = 3 ∷ 14 ∷ 15 ∷ [] } }

abbrev payment : TransactionId
payment = record { uuid = record { bytes = 9 ∷ 2 ∷ [] } }

parse_account_id_paths_example :
    (parse_account_id shifted (account_path shifted holder) ≡ ok holder)
    × (parse_account_id shifted (balance_path shifted holder) ≡ ok holder)
    × (parse_account_id shifted (transaction_log_path shifted holder) ≡ ok holder)
    × (parse_account_id shifted (snapshot_path shifted holder (codes "2024")) ≡ ok holder)
parse_account_id_paths_example =
    parse_account_id_paths shifted shifted-IsUuidText holder (codes "2024")

parse_transaction_id-transaction_path_test :
    parse_transaction_id shifted (transaction_path shifted payment) ≡ ok payment
parse_transaction_id-transaction_path_test =
    parse_transaction_id-transaction_path shifted shifted-IsUuidText payment

account_paths_kinds_test :
    (is_directory (account_path shifted holder) ≡ true)
    × (get_file_type (balance_path shifted holder) ≡ json)
    × (is_valid_file (balance_path shifted holder) ≡ true)
    × (get_file_type (transaction_log_path shifted holder) ≡ log)
    × (is_valid_file (transaction_log_path shifted holder) ≡ true)
account_paths_kinds_test = account_paths_kinds shifted shifted-IsUuidText holder

snapshot_path_not_valid_example : is_valid_file (snapshot_path shifted holder (codes "24")) ≡ false
snapshot_path_not_valid_example =
    snapshot_path_not_valid shifted shifted-IsUuidText holder (codes "24") (refl, (refl, tt))
