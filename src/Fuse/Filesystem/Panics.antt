-- ===== src/Fuse/Filesystem/Panics.antt =====
-- A path that `read` of crates/ledgerfs-fuse/src/filesystem.rs takes for a balance file and cannot
-- take apart.
use ledgerfs.Prelude.{ℕ, ◌≡◌, refl, ap, false, some, List}
use ledgerfs.Prelude.Int.{ℤ}
use ledgerfs.Prelude.Bytes.{Bytes, codes, bytes_eq}
use ledgerfs.Prelude.Text.{split, starts_with, count_slashes}
use ledgerfs.Fuse.Inodes.{InodeTable, get_path, get_or_create_inode}
use ledgerfs.Fuse.Inodes.Laws.{IsValid, get_or_create_inode-IsValid}
use ledgerfs.Fuse.Attributes.{Services, create_file_attr, reply, panics}
use ledgerfs.Fuse.Filesystem.{lookup, lookup_is_dir, join, content, read}
use ledgerfs.Fuse.Filesystem.Requests.{
  Request, serve_all, serve_all_keeps, get_path-get_or_create_inode, lookup_found,
}

stray : Bytes
stray = codes "/balance.json"

module _ (s : Services) where
  content-stray : content s stray ≡ panics
  unfolding content split starts_with bytes_eq stray
  content-stray = refl

  -- In a valid table whose root is inode 1, a lookup of "balance.json" in the root replies a file, and
  -- every read of that file panics, after any further requests.
  pub read-lookup_panics :
      (now : ℕ) (t : InodeTable) (requests : List Request) (offset : ℤ) (size : ℕ)
      → IsValid t
      → get_path t 1 ≡ some (codes "/")
      → (inode : ℕ) × ((lookup now t 1 (codes "balance.json")).0
          ≡ reply (create_file_attr now inode 0 false))
        × (read s (serve_all s (lookup now t 1 (codes "balance.json")).1 requests) inode offset size
            ≡ panics)
  unfolding join lookup_is_dir count_slashes starts_with read bytes_eq stray
  read-lookup_panics now t requests offset size v root =
      let u = (get_or_create_inode t stray).1 in
      let inode = (get_or_create_inode t stray).0 in
      let kept = serve_all_keeps s u requests (get_or_create_inode-IsValid t stray v) in
      let found = lookup_found now t 1 (codes "balance.json") (codes "/") root in
      (
        inode,
        ap (λ r. r.0) found,
        rw found (
            rw (kept.keeps inode stray (get_path-get_or_create_inode t stray v), read)
              (rw content-stray refl)),
      )
