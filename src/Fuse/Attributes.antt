-- ===== src/Fuse/Attributes.antt =====
-- What the handlers of crates/ledgerfs-fuse/src/filesystem.rs call and reply.
use ledgerfs.Prelude.{ℕ, ◌+◌, ◌/◌, Bool, Option, List, if◌then◌else◌}
use ledgerfs.Prelude.Bytes.{Bytes}
use ledgerfs.Core.Types.{AccountId, Account, Balance}
use ledgerfs.Core.Events.{TransactionProcessedEvent}
use ledgerfs.Core.Errors.{LedgerResult}
use ledgerfs.Fuse.Paths.{UuidText}

-- The calls of the trait objects that the file system makes, and the text that `serde_json` gives
-- to what they return.
pub record Services : Type 0 where
  pub get_balance : AccountId → LedgerResult (Option Balance)
  pub find_accounts : LedgerResult (List Account)
  pub get_transaction_history : AccountId → Option ℕ → LedgerResult (List TransactionProcessedEvent)
  pub balance_json : Balance → Bytes
  pub transactions_json : AccountId → List TransactionProcessedEvent → Bytes
  pub uuid_text : UuidText

-- `fuser::FileType` and `fuser::FileAttr`, with the times in seconds.
pub data FileKind : Type 0 where
  directory regular_file : FileKind

pub record FileAttr : Type 0 where
  pub ino : ℕ
  pub size : ℕ
  pub blocks : ℕ
  pub atime : ℕ
  pub mtime : ℕ
  pub ctime : ℕ
  pub crtime : ℕ
  pub kind : FileKind
  pub perm : ℕ
  pub nlink : ℕ
  pub uid : ℕ
  pub gid : ℕ
  pub rdev : ℕ
  pub flags : ℕ
  pub blksize : ℕ

unfoldable pub create_file_attr : ℕ → ℕ → ℕ → Bool → FileAttr
create_file_attr now inode size is_dir = record {
  ino = inode;
  size = size;
  blocks = (size + 511) / 512;
  atime = now;
  mtime = now;
  ctime = now;
  crtime = now;
  kind = if is_dir then directory else regular_file;
  perm = if is_dir then 0o755 else 0o644;
  nlink = 1;
  uid = 1000;
  gid = 1000;
  rdev = 0;
  flags = 0;
  blksize = 4096;
}

-- The one error number that is replied, and a panic of the handler.
pub data Reply (A : Type 0) : Type 0 where
  reply : A → Reply A
  enoent panics : Reply A
