-- ===== src/Fuse/Filesystem/Lookups.antt =====
-- `lookup` and `getattr` of crates/ledgerfs-fuse/src/filesystem.rs, and what `readdir` lists.
use ledgerfs.Prelude.{
  ℕ, ◌≡◌, ◌≢◌, refl, sym, ◌∙◌, ap, Bool, true, false, if◌then◌else◌, some, inl, inr, Bool-cases,
  List, [], ◌∷◌, ◌++◌, arith,
}
use ledgerfs.Prelude.Bytes.{Bytes, codes, bytes_eq, bytes_eq_iff}
use ledgerfs.Prelude.Text.{count_slashes, count_slashes-append}
use ledgerfs.Fuse.Inodes.{InodeTable, get_path, get_or_create_inode}
use ledgerfs.Fuse.Inodes.Laws.{IsValid, get_or_create_inode-IsValid}
use ledgerfs.Fuse.Filesystem.Requests.{
  Request, Extends-create, Extends-entries, get_path-get_or_create_inode, lookup_found, serve_all,
  serve_all_keeps,
}
use ledgerfs.Fuse.Attributes.{Services, create_file_attr, reply, directory, regular_file}
use ledgerfs.Fuse.Filesystem.{
  is_account_dir, lookup_is_dir, getattr_is_dir, join, lookup, getattr, entries,
}

inode_kept :
    (t : InodeTable) (path : Bytes) (inode : ℕ)
    → IsValid t
    → get_path t inode ≡ some path
    → (get_or_create_inode t path).0 ≡ inode
unfolding get_or_create_inode
inode_kept t path inode v h = rw (v.path_of_inode inode path h, get_or_create_inode) refl

bytes_eq_count : (p q : Bytes) → count_slashes p ≢ count_slashes q → bytes_eq p q ≡ false
bytes_eq_count p q n = elim (Bool-cases (bytes_eq p q)) [
  | inl e ↦ absurd (n (ap count_slashes ((bytes_eq_iff p q).0 e)))
  | inr e ↦ e
]

one_slash : (q : Bytes) → count_slashes q ≡ 1 → 3 ≢ count_slashes q
one_slash q h e = ground arith

-- A path of three separators is no directory.
lookup_is_dir_deep : (p : Bytes) → count_slashes p ≡ 3 → lookup_is_dir p ≡ false
unfolding lookup_is_dir count_slashes
lookup_is_dir_deep p h =
    let no_eq : (q : Bytes) → 3 ≢ count_slashes q → bytes_eq p q ≡ false =
      λ q n. bytes_eq_count p q (λ e. n (sym h ∙ e)) in
    let a : bytes_eq p (codes "/accounts") ≡ false =
      no_eq (codes "/accounts") (one_slash (codes "/accounts") refl) in
    let b : bytes_eq p (codes "/transactions") ≡ false =
      no_eq (codes "/transactions") (one_slash (codes "/transactions") refl) in
    let c : bytes_eq p (codes "/docs") ≡ false =
      no_eq (codes "/docs") (one_slash (codes "/docs") refl) in
    ground arith

module _ (s : Services) where
  kinds_agree :
      (path : Bytes) → bytes_eq path (codes "/") ≡ false → lookup_is_dir path ≡ getattr_is_dir path
  unfolding lookup_is_dir getattr_is_dir
  kinds_agree path h = rw h refl

  join_not_root : (path name : Bytes) → name ≢ [] → bytes_eq (join path name) (codes "/") ≡ false
  unfolding join bytes_eq
  join_not_root path [] h = absurd (h refl)
  join_not_root [] (c ∷ name) h = ground arith
  join_not_root (d ∷ []) (c ∷ name) h = ground arith
  join_not_root (d ∷ e ∷ path) (c ∷ name) h = ground arith

  -- What a lookup of a name that is not empty has replied, `getattr` on its inode confirms after any
  -- further requests: the inode and the kind are the same. A file's size, which the lookup gives as
  -- 0, is 1024 by then.
  pub getattr-lookup :
      (now later : ℕ) (t : InodeTable) (parent : ℕ) (name path : Bytes) (requests : List Request)
      → IsValid t
      → name ≢ []
      → get_path t parent ≡ some path
      → (inode : ℕ) × (is_dir : Bool) × ((lookup now t parent name).0
          ≡ reply (create_file_attr now inode 0 is_dir))
        × (getattr later (serve_all s (lookup now t parent name).1 requests) inode
            ≡ reply (create_file_attr later inode (if is_dir then 0 else 1024) is_dir))
  unfolding getattr
  getattr-lookup now later t parent name path requests v nonempty h =
      let full = join path name in
      let u = (get_or_create_inode t full).1 in
      let kept = serve_all_keeps s u requests (get_or_create_inode-IsValid t full v) in
      let inode = (get_or_create_inode t full).0 in
      (
        inode,
        lookup_is_dir full,
        ap (λ r. r.0) (lookup_found now t parent name path h),
        rw (lookup_found now t parent name path h) (
            rw (kept.keeps inode full (get_path-get_or_create_inode t full v), getattr)
              (rw (kinds_agree full (join_not_root path name nonempty)) refl)),
      )

  not_root : (path : Bytes) → is_account_dir path ≡ true → bytes_eq path (codes "/") ≡ false
  unfolding count_slashes
  not_root path h = bytes_eq_count path (codes "/") (λ e. ground arith)

  not_accounts :
      (path : Bytes) → is_account_dir path ≡ true → bytes_eq path (codes "/accounts") ≡ false
  unfolding count_slashes
  not_accounts path h = bytes_eq_count path (codes "/accounts") (λ e. ground arith)

  pub account_entries_of :
      (t : InodeTable) (ino : ℕ) (path : Bytes)
      → is_account_dir path ≡ true
      → entries s t ino path ≡ (
          let (balance, u) = get_or_create_inode t (path ++ codes "/balance.json") in
          let (tx, w) = get_or_create_inode u (path ++ codes "/tx.log") in
          (
            reply (
                (codes ".", ino, directory)
                ∷ (codes "..", 2, directory)
                ∷ (codes "balance.json", balance, regular_file)
                ∷ (codes "tx.log", tx, regular_file)
                ∷ []),
            w,
          ))
  unfolding entries
  account_entries_of t ino path h = rw (not_root path h, not_accounts path h, h, entries) refl

  three :
      (path name : Bytes)
      → is_account_dir path ≡ true
      → count_slashes name ≡ 0
      → count_slashes (path ++ (codes "/" ++ name)) ≡ 3
  unfolding count_slashes
  three path name h k = rw (count_slashes-append path (codes "/" ++ name)) (ground arith)

  -- A lookup of a file that has an inode, in an account's directory.
  lookup_listed :
      (now : ℕ) (t : InodeTable) (ino : ℕ) (path name : Bytes) (inode : ℕ)
      → IsValid t
      → is_account_dir path ≡ true
      → count_slashes name ≡ 0
      → get_path t ino ≡ some path
      → get_path t inode ≡ some (path ++ (codes "/" ++ name))
      → (lookup now t ino name).0 ≡ reply (create_file_attr now inode 0 false)
  unfolding join create_file_attr
  lookup_listed now t ino path name inode v dir plain h k =
      let full = path ++ (codes "/" ++ name) in
      rw (lookup_found now t ino name path h) (
        rw (not_root path dir, join)
          (rw (inode_kept t full inode v k)
            (rw (lookup_is_dir_deep full (three path name dir plain)) refl)))

  -- The two files that an account's directory lists are found by a lookup of their names, after any
  -- further requests, under the inodes that were listed.
  pub lookup-entries :
      (now : ℕ) (t : InodeTable) (ino : ℕ) (path : Bytes) (requests : List Request)
      → IsValid t
      → get_path t ino ≡ some path
      → is_account_dir path ≡ true
      → (balance tx : ℕ) × ((entries s t ino path).0
          ≡ reply (
              (codes ".", ino, directory)
              ∷ (codes "..", 2, directory)
              ∷ (codes "balance.json", balance, regular_file)
              ∷ (codes "tx.log", tx, regular_file)
              ∷ []))
        × ((lookup now (serve_all s (entries s t ino path).1 requests) ino (codes "balance.json")).0
            ≡ reply (create_file_attr now balance 0 false))
        × ((lookup now (serve_all s (entries s t ino path).1 requests) ino (codes "tx.log")).0
            ≡ reply (create_file_attr now tx 0 false))
  unfolding count_slashes
  lookup-entries now t ino path requests v h dir =
      let e = Extends-entries s t ino path v in
      let w = (entries s t ino path).1 in
      let f = serve_all_keeps s w requests e.valid in
      let last = serve_all s w requests in
      let balance = (get_or_create_inode t (path ++ codes "/balance.json")).0 in
      let u = (get_or_create_inode t (path ++ codes "/balance.json")).1 in
      let tx = (get_or_create_inode u (path ++ codes "/tx.log")).0 in
      let b = Extends-create t (path ++ codes "/balance.json") v in
      let l = Extends-create u (path ++ codes "/tx.log") b.valid in
      let keep : (i : ℕ) (q : Bytes)
          → get_path (get_or_create_inode u (path ++ codes "/tx.log")).1 i ≡ some q
          → get_path last i ≡ some q =
        λ i q k. f.keeps i q (rw (account_entries_of t ino path dir) k) in
      let found = f.keeps ino path (e.keeps ino path h) in
      (
        balance,
        tx,
        ap (λ r. r.0) (account_entries_of t ino path dir),
        lookup_listed now last ino path (codes "balance.json") balance f.valid dir refl found (
            keep balance (path ++ codes "/balance.json") (
              l.keeps balance (path ++ codes "/balance.json")
                (get_path-get_or_create_inode t (path ++ codes "/balance.json") v))),
        lookup_listed now last ino path (codes "tx.log") tx f.valid dir refl found (
            keep tx (path ++ codes "/tx.log")
              (get_path-get_or_create_inode u (path ++ codes "/tx.log") b.valid)),
      )
