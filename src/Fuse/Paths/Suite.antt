-- ===== src/Fuse/Paths/Suite.antt =====
-- The tests that stand in crates/ledgerfs-fuse/src/path_resolver.rs: `true` where every assertion
-- holds and nothing panics.
use ledgerfs.Prelude.{ap, ◌∙◌, ◌≡◌, refl, ◌∙◌, Bool, true, false, not, ◌&&◌, ◌++◌, ok, err, []}
use ledgerfs.Prelude.Bytes.{codes, bytes_eq}
use ledgerfs.Prelude.Text.{starts_with, count_slashes}
use ledgerfs.Core.Types.{AccountId, account_id_eq, account_id_eq_iff}
use ledgerfs.Fuse.Paths.{
  UuidText, IsUuidText, FileType, json, log, pdf, parse_account_id, is_directory, get_file_type,
  balance_path,
}
use ledgerfs.Fuse.Paths.Laws.{parse_account_id_paths}

module _ (u : UuidText) where
  unfoldable pub test_parse_account_id : AccountId → Bool
  test_parse_account_id account_id =
      let path = codes "/accounts/" ++ (u.to_text account_id.uuid ++ codes "/balance.json") in
      elim (parse_account_id u path) [ err e ↦ false | ok parsed ↦ account_id_eq parsed account_id ]

  -- It passes for every account.
  test_parse_account_id_passes :
      (account_id : AccountId) → IsUuidText u → test_parse_account_id account_id ≡ true
  unfolding test_parse_account_id balance_path
  test_parse_account_id_passes account_id documented =
      let (_, parsed, _, _) = parse_account_id_paths u documented account_id [] in
      ap
        (λ r. elim r as (λ _. Bool) [ err e ↦ false | ok parsed ↦ account_id_eq parsed account_id ])
        parsed
      ∙ (account_id_eq_iff account_id account_id).1 refl

unfoldable pub test_is_directory : Bool
test_is_directory =
    is_directory (codes "/")
    && (is_directory (codes "/accounts")
        && (is_directory (codes "/accounts/123e4567-e89b-12d3-a456-426614174000")
            && not (
                is_directory
                  (codes "/accounts/123e4567-e89b-12d3-a456-426614174000/balance.json"))))

test_is_directory_passes : test_is_directory ≡ true
unfolding test_is_directory is_directory bytes_eq starts_with count_slashes
test_is_directory_passes = refl

-- The equality of `FileType`s, where one of them is known.
abbrev is_json : FileType → Bool
is_json json = true
is_json _ = false

abbrev is_log : FileType → Bool
is_log log = true
is_log _ = false

abbrev is_pdf : FileType → Bool
is_pdf pdf = true
is_pdf _ = false

unfoldable pub test_file_type : Bool
test_file_type =
    is_json (get_file_type (codes "/accounts/test/balance.json"))
    && (is_log (get_file_type (codes "/accounts/test/tx.log"))
        && is_pdf (get_file_type (codes "/docs/test/doc.pdf")))

test_file_type_passes : test_file_type ≡ true
unfolding test_file_type get_file_type is_directory bytes_eq starts_with count_slashes
test_file_type_passes = refl
