-- ===== src/Fuse/Inodes.antt =====
-- The inode table of crates/ledgerfs-fuse/src/filesystem.rs: two maps and a counter. `HashMap`s
-- are association lists whose newest pair counts; the counter is unbounded here, where a `u64`
-- would wrap after 2^64 paths.
pub mod Laws
use ledgerfs.Prelude.{
  ℕ, suc, ◌+◌, ◌≡◌, Bool, Option, none, some, List, [], ◌∷◌, ◌==◌, if◌then◌else◌,
}
use ledgerfs.Prelude.Bytes.{Bytes, codes, bytes_eq}

pub record InodeTable : Type 0 where
  pub inode_map : List (ℕ × Bytes)
  pub path_map : List (Bytes × ℕ)
  pub next_inode : ℕ

unfoldable pub find_path : ℕ → List (ℕ × Bytes) → Option Bytes
find_path inode [] = none
find_path inode ((i, path) ∷ m) = if i == inode then some path else find_path inode m

unfoldable pub find_inode : Bytes → List (Bytes × ℕ) → Option ℕ
find_inode path [] = none
find_inode path ((q, i) ∷ m) = if bytes_eq q path then some i else find_inode path m

-- The maps that `LedgerFilesystem::new` fills.
abbrev pub new_table : InodeTable
new_table = record {
  inode_map =
      (4, codes "/docs")
      ∷ (3, codes "/transactions")
      ∷ (2, codes "/accounts")
      ∷ (1, codes "/")
      ∷ [];
  path_map =
      (codes "/docs", 4)
      ∷ (codes "/transactions", 3)
      ∷ (codes "/accounts", 2)
      ∷ (codes "/", 1)
      ∷ [];
  next_inode = 5;
}

unfoldable pub get_path : InodeTable → ℕ → Option Bytes
get_path self inode = find_path inode self.inode_map

-- The part of `get_or_create_inode` under the write locks, which looks once more. The table may
-- have changed since the first look.
unfoldable pub create_inode : InodeTable → Bytes → ℕ × InodeTable
create_inode self path = elim (find_inode path self.path_map) [
  | some inode ↦ (inode, self)
  | none ↦ (
    self.next_inode,
    record {
      inode_map = (self.next_inode, path) ∷ self.inode_map;
      path_map = (path, self.next_inode) ∷ self.path_map;
      next_inode = self.next_inode + 1;
    },
  )
]

unfoldable pub get_or_create_inode : InodeTable → Bytes → ℕ × InodeTable
get_or_create_inode self path = elim (find_inode path self.path_map) [
  | some inode ↦ (inode, self)
  | none ↦ create_inode self path
]
