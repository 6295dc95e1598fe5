-- ===== src/Fuse/Inodes/Laws.antt =====
-- The two maps of the inode table stay inverse to one another.
use ledgerfs.Prelude.{ℕ, ◌<◌, ◌≡◌, some, arith}
use ledgerfs.Prelude.Bytes.{Bytes, codes, bytes_eq_iff}
use ledgerfs.Fuse.Inodes.{
  InodeTable, find_path, find_inode, new_table, get_path, create_inode, get_or_create_inode,
}

-- A path has an inode exactly when the inode has the path, and inodes in use stand below the
-- counter.
pub record IsValid (t : InodeTable) : Type 0 where
  pub path_of_inode :
      (inode : ℕ) (path : Bytes)
      → get_path t inode ≡ some path
      → find_inode path t.path_map ≡ some inode
  pub inode_of_path :
      (path : Bytes) (inode : ℕ)
      → find_inode path t.path_map ≡ some inode
      → get_path t inode ≡ some path
  pub below :
      (path : Bytes) (inode : ℕ) → find_inode path t.path_map ≡ some inode → inode < t.next_inode

-- The table of a new file system is valid.
pub new_table-IsValid : IsValid new_table
unfolding get_path find_path find_inode
new_table-IsValid = record {
  path_of_inode = λ inode path h. ground (
    arith,
    bytes_eq_iff (codes "/docs") path,
    bytes_eq_iff (codes "/transactions") path,
    bytes_eq_iff (codes "/accounts") path,
    bytes_eq_iff (codes "/") path,
  );
  inode_of_path = λ path inode h. ground (
    arith,
    bytes_eq_iff (codes "/docs") path,
    bytes_eq_iff (codes "/transactions") path,
    bytes_eq_iff (codes "/accounts") path,
    bytes_eq_iff (codes "/") path,
  );
  below = λ path inode h. ground arith;
}

-- Taking an inode, new or old, keeps the table valid.
pub create_inode-IsValid :
    (t : InodeTable) (path : Bytes) → IsValid t → IsValid (create_inode t path).1
unfolding create_inode get_path find_path find_inode
create_inode-IsValid t path v = record {
  path_of_inode =
      λ inode q h. grind (arith, v.path_of_inode, v.inode_of_path, v.below, bytes_eq_iff);
  inode_of_path = λ q inode h. grind (arith, v.inode_of_path, v.below, bytes_eq_iff);
  below = λ q inode h. grind (arith, v.below);
}

pub get_or_create_inode-create :
    (t : InodeTable) (path : Bytes) → get_or_create_inode t path ≡ create_inode t path
unfolding get_or_create_inode create_inode
get_or_create_inode-create t path = ground arith

-- Taking the inode of a path, from a valid table, keeps the table valid.
pub get_or_create_inode-IsValid :
    (t : InodeTable) (path : Bytes) → IsValid t → IsValid (get_or_create_inode t path).1
get_or_create_inode-IsValid t path v =
    rw (get_or_create_inode-create t path) (create_inode-IsValid t path v)

-- The inode that is returned for a path is the path's.
pub get_path-create_inode :
    (t : InodeTable) (path : Bytes)
    → IsValid t
    → get_path (create_inode t path).1 (create_inode t path).0 ≡ some path
unfolding create_inode get_path find_path
get_path-create_inode t path v = grind (arith, v.inode_of_path)

-- An inode that was handed out keeps its path.
pub get_path_kept :
    (t : InodeTable) (path q : Bytes) (inode : ℕ)
    → IsValid t
    → get_path t inode ≡ some q
    → get_path (create_inode t path).1 inode ≡ some q
unfolding create_inode get_path find_path
get_path_kept t path q inode v h = ground (arith, v.path_of_inode inode q h, v.below q inode)
