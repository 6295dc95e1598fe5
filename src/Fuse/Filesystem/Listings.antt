-- ===== src/Fuse/Filesystem/Listings.antt =====
-- What `readdir` of crates/ledgerfs-fuse/src/filesystem.rs lists, one entry at a time.
use ledgerfs.Prelude.{
  ℕ, zero, suc, ◌+◌, ◌<◌, ◌≡◌, refl, ap, ◌∙◌, true, some, List, [], ◌∷◌, ◌++◌, ok, map, take, arith,
  get_elem?,
}
use ledgerfs.Prelude.Int.{pos}
use ledgerfs.Prelude.Bytes.{Bytes, codes, bytes_eq}
use ledgerfs.Prelude.Text.{starts_with, count_slashes, count_slashes_plain}
use ledgerfs.Core.Types.{AccountId, Account}
use ledgerfs.Fuse.Paths.{IsUuidText, account_path, balance_path, transaction_log_path}
use ledgerfs.Fuse.Inodes.{InodeTable, get_path, get_or_create_inode}
use ledgerfs.Fuse.Inodes.Laws.{IsValid}
use ledgerfs.Fuse.Attributes.{Services, FileKind, reply, directory, regular_file}
use ledgerfs.Fuse.Filesystem.{
  Dirent, account_entries, entries, listed, list_accounts, number_from, readdir, is_account_dir,
}
use ledgerfs.Fuse.Filesystem.Requests.{
  Extends-create, Extends-account_entries, get_path-get_or_create_inode,
}
use ledgerfs.Fuse.Filesystem.Lookups.{account_entries_of}

get_elem?-take :
    {A : Type 0} (n i : ℕ) (xs : List A) → i < n → get_elem? (take n xs) i ≡ get_elem? xs i
get_elem?-take zero i xs h = absurd (omega (arith, h))
get_elem?-take (suc n) i [] h = refl
get_elem?-take (suc n) zero (x ∷ xs) h = refl
get_elem?-take (suc n) (suc i) (x ∷ xs) h = get_elem?-take n i xs (omega (arith, h))

get_elem?-map :
    {A B : Type 0} (f : A → B) (xs : List A) (i : ℕ) (a : A)
    → get_elem? xs i ≡ some a
    → get_elem? (map f xs) i ≡ some (f a)
get_elem?-map f [] i a h = absurd (cc h)
get_elem?-map f (x ∷ xs) zero a h = ground (arith, h)
get_elem?-map f (x ∷ xs) (suc i) a h = get_elem?-map f xs i a h

module _ (s : Services) where
  get_elem?-number_from :
      (n : ℕ) (es : List (Dirent s)) (i : ℕ) (e : Dirent s)
      → get_elem? es i ≡ some e
      → get_elem? (number_from s n es) i ≡ some (n + i + 1, e)
  unfolding number_from
  get_elem?-number_from n [] i e h = absurd (cc h)
  get_elem?-number_from n (x ∷ es) zero e h = ground (arith, h)
  get_elem?-number_from n (x ∷ es) (suc i) e h =
      ground (arith, get_elem?-number_from (n + 1) es i e h)

  -- A listing of the directory from its start, with room for `room` entries, has as its i-th one
  -- the name with the inode and the kind.
  abbrev pub Lists : InodeTable → ℕ → ℕ → ℕ → Bytes → ℕ → FileKind → Type 0
  Lists t dir room i name inode kind =
      (listing : List (ℕ × Dirent s)) × ((readdir s t dir (pos 0) room).0 ≡ reply listing)
      × (get_elem? listing i ≡ some (i + 1, (name, inode, kind)))

  readdir-entry :
      (t : InodeTable) (dir room i : ℕ) (path : Bytes) (es : List (Dirent s)) (e : Dirent s)
      → get_path t dir ≡ some path
      → (entries s t dir path).0 ≡ reply es
      → get_elem? es i ≡ some e
      → i < room
      → (listing : List (ℕ × Dirent s)) × ((readdir s t dir (pos 0) room).0 ≡ reply listing)
        × (get_elem? listing i ≡ some (i + 1, e))
  unfolding readdir
  readdir-entry t dir room i path es e h k here fits = (
    take room (number_from s 0 es),
    rw (h, readdir) (rw k refl),
    rw (get_elem?-take room i (number_from s 0 es) fits)
        (get_elem?-number_from 0 es i e here ∙ ground arith),
  )

  -- Each account has an entry, whose inode has its path behind the loop.
  account_entries-entry :
      (t : InodeTable) (ids : List Bytes) (i : ℕ) (text : Bytes)
      → IsValid t
      → get_elem? ids i ≡ some text
      → (inode : ℕ) × (get_elem? (account_entries s t ids).0 i ≡ some (text, inode, directory))
        × (get_path (account_entries s t ids).1 inode ≡ some (codes "/accounts/" ++ text))
  unfolding account_entries
  account_entries-entry t [] i text v h = absurd (cc h)
  account_entries-entry t (id ∷ ids) zero text v h =
      let path = codes "/accounts/" ++ id in
      let u = (get_or_create_inode t path).1 in
      let inode = (get_or_create_inode t path).0 in
      let rest = Extends-account_entries s u ids (Extends-create t path v).valid in
      let same : id ≡ text = ground (arith, h) in
      (
        inode,
        ap (λ (x : Bytes). some (x, inode, directory)) same,
        rest.keeps inode path (get_path-get_or_create_inode t path v)
            ∙ ap (λ (x : Bytes). some (codes "/accounts/" ++ x)) same,
      )
  account_entries-entry t (id ∷ ids) (suc i) text v h =
      let path = codes "/accounts/" ++ id in
      account_entries-entry (get_or_create_inode t path).1 ids i text
        (Extends-create t path v).valid h

  listed-found :
      (accounts : List Account)
      → s.find_accounts ≡ ok accounts
      → listed s (list_accounts s)
        ≡ map (λ (acc : Account). s.uuid_text.to_text acc.id.uuid) accounts
  unfolding list_accounts
  listed-found accounts found = rw found refl

  entries-accounts :
      (t : InodeTable) (accounts : List Account)
      → s.find_accounts ≡ ok accounts
      → entries s t 2 (codes "/accounts") ≡ (
          let (rest, last) =
            account_entries s t
              (map (λ (acc : Account). s.uuid_text.to_text acc.id.uuid) accounts) in
          (reply ((codes ".", 2, directory) ∷ (codes "..", 1, directory) ∷ rest), last))
  unfolding entries bytes_eq
  entries-accounts t accounts found =
      ap
        (λ ids. (
          reply (
              (codes ".", 2, directory) ∷ (codes "..", 1, directory) ∷ (account_entries s t ids).0),
          (account_entries s t ids).1,
        ))
        (listed-found accounts found)

  -- The directory of the accounts lists the i-th account that is found behind its two dots.
  pub readdir-accounts :
      (t : InodeTable) (room : ℕ) (accounts : List Account) (i : ℕ) (acc : Account)
      → IsValid t
      → get_path t 2 ≡ some (codes "/accounts")
      → s.find_accounts ≡ ok accounts
      → get_elem? accounts i ≡ some acc
      → suc (suc i) < room
      → (inode : ℕ) × Lists t 2 room (suc (suc i)) (s.uuid_text.to_text acc.id.uuid) inode directory
        × (get_path (readdir s t 2 (pos 0) room).1 inode ≡ some (account_path s.uuid_text acc.id))
  unfolding readdir account_path
  readdir-accounts t room accounts i acc v h found here fits =
      let text_of = λ (a : Account). s.uuid_text.to_text a.id.uuid in
      let ids = map text_of accounts in
      let text = text_of acc in
      let (inode, place, path) =
        account_entries-entry t ids i text v (get_elem?-map text_of accounts i acc here) in
      let es =
        (codes ".", 2, directory) ∷ (codes "..", 1, directory) ∷ (account_entries s t ids).0 in
      let own = entries-accounts t accounts found in
      (
        inode,
        readdir-entry t 2 room (suc (suc i)) (codes "/accounts") es (text, inode, directory) h
            (ap (λ r. r.0) own) place fits,
        rw (h, readdir) (rw own path),
      )

  account_path-IsAccountDir :
      (id : AccountId)
      → IsUuidText s.uuid_text
      → is_account_dir (account_path s.uuid_text id) ≡ true
  unfolding account_path starts_with count_slashes
  account_path-IsAccountDir id documented =
      rw (count_slashes_plain (s.uuid_text.to_text id.uuid) (documented.plain id.uuid)) refl

  -- The directory of an account lists its two files.
  pub readdir-account :
      (t : InodeTable) (dir room : ℕ) (id : AccountId)
      → IsUuidText s.uuid_text
      → IsValid t
      → get_path t dir ≡ some (account_path s.uuid_text id)
      → 3 < room
      → (balance tx : ℕ) × Lists t dir room 2 (codes "balance.json") balance regular_file
        × Lists t dir room 3 (codes "tx.log") tx regular_file
        × (get_path (readdir s t dir (pos 0) room).1 balance ≡ some (balance_path s.uuid_text id))
        × (get_path (readdir s t dir (pos 0) room).1 tx
            ≡ some (transaction_log_path s.uuid_text id))
  unfolding readdir balance_path transaction_log_path account_path
  readdir-account t dir room id documented v h fits =
      let path = account_path s.uuid_text id in
      let own = account_entries_of s t dir path (account_path-IsAccountDir id documented) in
      let b = path ++ codes "/balance.json" in
      let u = (get_or_create_inode t b).1 in
      let x = path ++ codes "/tx.log" in
      let ub = Extends-create t b v in
      let ux = Extends-create u x ub.valid in
      let balance = (get_or_create_inode t b).0 in
      let tx = (get_or_create_inode u x).0 in
      let es =
        (codes ".", dir, directory)
        ∷ (codes "..", 2, directory)
        ∷ (codes "balance.json", balance, regular_file)
        ∷ (codes "tx.log", tx, regular_file)
        ∷ [] in
      let replied = ap (λ r. r.0) own in
      (
        balance,
        tx,
        readdir-entry t dir room 2 path es (codes "balance.json", balance, regular_file) h replied
            refl (omega (arith, fits)),
        readdir-entry t dir room 3 path es (codes "tx.log", tx, regular_file) h replied refl fits,
        rw (h, readdir) (rw own (ux.keeps balance b (get_path-get_or_create_inode t b v))),
        rw (h, readdir) (rw own (get_path-get_or_create_inode u x ub.valid)),
      )
