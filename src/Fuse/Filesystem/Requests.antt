-- ===== src/Fuse/Filesystem/Requests.antt =====
-- Sequences of requests to the file system, as `fuser` makes them: one at a time, since a handler
-- has `&mut self`.
use ledgerfs.Prelude.{
  ℕ, ◌≡◌, refl, Bool, Option, true, false, if◌then◌else◌, some, none, List, [], ◌∷◌, ◌++◌,
}
use ledgerfs.Prelude.Int.{ℤ}
use ledgerfs.Prelude.Bytes.{Bytes, codes, bytes_eq}
use ledgerfs.Fuse.Inodes.{InodeTable, get_path, get_or_create_inode}
use ledgerfs.Fuse.Inodes.Laws.{
  IsValid, get_or_create_inode-IsValid, get_or_create_inode-create, get_path-create_inode,
  get_path_kept,
}
use ledgerfs.Fuse.Attributes.{Services, create_file_attr, Reply, reply, enoent}
use ledgerfs.Fuse.Filesystem.{
  is_account_dir, lookup_is_dir, join, lookup, account_entries, entries, readdir, listed,
  list_accounts,
}

-- A request that may change the inode table, with the kernel's arguments, a lookup's behind the
-- time of day.
pub data Request : Type 0 where
  look_up : ℕ → ℕ → Bytes → Request
  read_dir : ℕ → ℤ → ℕ → Request

-- The table keeps all it has handed out.
pub record Extends (t u : InodeTable) : Type 0 where
  pub valid : IsValid u
  pub keeps :
      (inode : ℕ) (path : Bytes) → get_path t inode ≡ some path → get_path u inode ≡ some path

Extends-same : (t : InodeTable) → IsValid t → Extends t t
Extends-same t v = record { valid = v; keeps = λ inode path h. h }

Extends-trans : (t u w : InodeTable) → Extends t u → Extends u w → Extends t w
Extends-trans t u w e f = record {
  valid = f.valid;
  keeps = λ inode path h. f.keeps inode path (e.keeps inode path h);
}

pub Extends-create :
    (t : InodeTable) (path : Bytes) → IsValid t → Extends t (get_or_create_inode t path).1
Extends-create t path v = record {
  valid = get_or_create_inode-IsValid t path v;
  keeps = λ inode q h. rw (get_or_create_inode-create t path) (get_path_kept t path q inode v h);
}

pub get_path-get_or_create_inode :
    (t : InodeTable) (path : Bytes)
    → IsValid t
    → get_path (get_or_create_inode t path).1 (get_or_create_inode t path).0 ≡ some path
get_path-get_or_create_inode t path v =
    rw (get_or_create_inode-create t path) (get_path-create_inode t path v)

Extends-found :
    {A : Type 0} (t : InodeTable) (found : Option Bytes) (f : Bytes → Reply A × InodeTable)
    → IsValid t
    → ((path : Bytes) → Extends t (f path).1)
    → Extends t
        (elim found as (λ x. Reply A × InodeTable) [ none ↦ (enoent, t) | some path ↦ f path ]).1
Extends-found t none f v e = Extends-same t v
Extends-found t (some path) f v e = e path

pub lookup_found :
    (now : ℕ) (t : InodeTable) (parent : ℕ) (name path : Bytes)
    → get_path t parent ≡ some path
    → lookup now t parent name ≡ (
      reply (
          create_file_attr now
            (get_or_create_inode t (join path name)).0
            0
            (lookup_is_dir (join path name))),
      (get_or_create_inode t (join path name)).1,
    )
unfolding lookup
lookup_found now t parent name path h = rw (h, lookup) refl

Extends-lookup :
    (now : ℕ) (t : InodeTable) (parent : ℕ) (name : Bytes)
    → IsValid t
    → Extends t (lookup now t parent name).1
unfolding lookup
Extends-lookup now t parent name v =
    Extends-found t (get_path t parent) _ v (λ path. Extends-create t (join path name) v)

Extends-if :
    {A : Type 0} (t : InodeTable) (b : Bool) (x y : A × InodeTable)
    → Extends t x.1
    → Extends t y.1
    → Extends t (if b then x else y).1
Extends-if t true x y e f = e
Extends-if t false x y e f = f

module _ (s : Services) where
  pub Extends-account_entries :
      (t : InodeTable) (accounts : List Bytes)
      → IsValid t
      → Extends t (account_entries s t accounts).1
  unfolding account_entries
  Extends-account_entries t [] v = Extends-same t v
  Extends-account_entries t (id ∷ accounts) v =
      let e = Extends-create t (codes "/accounts/" ++ id) v in
      Extends-trans t (get_or_create_inode t (codes "/accounts/" ++ id)).1
        (account_entries s (get_or_create_inode t (codes "/accounts/" ++ id)).1 accounts).1 e
        (Extends-account_entries (get_or_create_inode t (codes "/accounts/" ++ id)).1 accounts
          e.valid)

  pub Extends-entries :
      (t : InodeTable) (ino : ℕ) (path : Bytes) → IsValid t → Extends t (entries s t ino path).1
  unfolding entries
  Extends-entries t ino path v =
      let u = (get_or_create_inode t (path ++ codes "/balance.json")).1 in
      let e = Extends-create t (path ++ codes "/balance.json") v in
      let same = Extends-same t v in
      Extends-if t (bytes_eq path (codes "/")) _ _ same (
        Extends-if t (bytes_eq path (codes "/accounts")) _ _
          (Extends-account_entries t (listed s (list_accounts s)) v)
          (Extends-if t (is_account_dir path) _ _
            (Extends-trans t u (get_or_create_inode u (path ++ codes "/tx.log")).1 e
              (Extends-create u (path ++ codes "/tx.log") e.valid))
            (Extends-if t (bytes_eq path (codes "/transactions")) _ _ same
              (Extends-if t (bytes_eq path (codes "/docs")) _ _ same same))))

  pub Extends-readdir :
      (t : InodeTable) (ino : ℕ) (offset : ℤ) (room : ℕ)
      → IsValid t
      → Extends t (readdir s t ino offset room).1
  unfolding readdir
  Extends-readdir t ino offset room v =
      Extends-found t (get_path t ino) _ v (λ path. Extends-entries t ino path v)

  -- The table after a request, and after a sequence of them.
  pub serve : InodeTable → Request → InodeTable
  serve t (look_up now parent name) = (lookup now t parent name).1
  serve t (read_dir ino offset room) = (readdir s t ino offset room).1

  pub serve_all : InodeTable → List Request → InodeTable
  serve_all t [] = t
  serve_all t (r ∷ requests) = serve_all (serve t r) requests

  -- Over any sequence of lookups and listings, the inode table stays valid and every inode keeps the
  -- path that it was handed out for.
  pub serve_all_keeps :
      (t : InodeTable) (requests : List Request) → IsValid t → Extends t (serve_all t requests)
  unfolding serve_all serve
  serve_all_keeps t [] v = Extends-same t v
  serve_all_keeps t (look_up now parent name ∷ requests) v =
      let e = Extends-lookup now t parent name v in
      Extends-trans t (lookup now t parent name).1 (serve_all (lookup now t parent name).1 requests)
        e (serve_all_keeps (lookup now t parent name).1 requests e.valid)
  serve_all_keeps t (read_dir ino offset room ∷ requests) v =
      let e = Extends-readdir t ino offset room v in
      Extends-trans t (readdir s t ino offset room).1
        (serve_all (readdir s t ino offset room).1 requests) e
        (serve_all_keeps (readdir s t ino offset room).1 requests e.valid)
