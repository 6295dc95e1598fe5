-- ===== src/Fuse/Mount.antt =====
-- `LedgerFuseService` of crates/ledgerfs-fuse/src/lib.rs and `MountManager` of
-- crates/ledgerfs-fuse/src/mount.rs, as they are built for Linux. Processes, directories and the
-- kernel's side of a mount are parameters over a world `W`; the requests of a mount are those of
-- Fuse.Filesystem.
pub mod Laws
mod Tests
use ledgerfs.Prelude.{
  ℕ, ◌≡◌, String, Bool, true, false, List, [], ◌∷◌, Result, ok, err, if◌then◌else◌,
}
use ledgerfs.Prelude.Bytes.{Bytes}
use ledgerfs.Fuse.Attributes.{Services}
use ledgerfs.Fuse.Inodes.{InodeTable, new_table}

-- `LedgerFilesystem` of crates/ledgerfs-fuse/src/filesystem.rs: its repositories and its inodes. A
-- clone has the same ones.
pub record LedgerFilesystem : Type 0 where
  pub services : Services
  pub table : InodeTable

abbrev pub new_filesystem : Services → LedgerFilesystem
new_filesystem services = record { services = services; table = new_table }

pub record FuseConfig : Type 0 where
  pub mount_point : String
  pub read_only : Bool
  pub allow_other : Bool
  pub auto_unmount : Bool

abbrev pub default_fuse_config : FuseConfig
default_fuse_config = record {
  mount_point = "/tmp/ledgerfs";
  read_only = true;
  allow_other = false;
  auto_unmount = true;
}

-- The service and the manager have the same fields and the same `new`.
pub record MountManager : Type 0 where
  pub config : FuseConfig
  pub filesystem : LedgerFilesystem

abbrev pub new_manager : FuseConfig → Services → MountManager
new_manager config services = record { config = config; filesystem = new_filesystem services }

pub record LedgerFuseService : Type 0 where
  pub config : FuseConfig
  pub filesystem : LedgerFilesystem

abbrev pub new_service : FuseConfig → Services → LedgerFuseService
new_service config services = record { config = config; filesystem = new_filesystem services }

-- The two of `fuser::MountOption` that are used.
pub data MountOption : Type 0 where
  ro : MountOption
  fs_name : String → MountOption

-- `std::process::Output`, without the standard output.
pub record Output : Type 0 where
  pub success : Bool
  pub stderr : Bytes

-- How `select!` of `mount_and_serve` ends: the mount's task with its result, or Ctrl+C first.
pub data Ended (Error JoinError : Type 0) : Type 0 where
  served : Result JoinError (Result Error (Unit {0})) → Ended Error JoinError
  interrupted : Ended Error JoinError

pub record Outside (W Error JoinError : Type 0) : Type 0 where
  pub command : String → List String → W → Result Error Output × W
  pub create_dir_all : String → W → Result Error (Unit {0}) × W
  pub mount2 :
      LedgerFilesystem
      → String
      → List MountOption
      → W
      → Result JoinError (Result Error (Unit {0})) × W
  pub mount_or_interrupt :
      LedgerFilesystem → String → List MountOption → W → Ended Error JoinError × W

-- `Box<dyn Error>`.
pub data MountError (Error JoinError : Type 0) : Type 0 where
  io : Error → MountError Error JoinError
  join : JoinError → MountError Error JoinError
  failed_to_unmount : Bytes → MountError Error JoinError

abbrev pub mount_options : List MountOption
mount_options = ro ∷ fs_name "ledgerfs" ∷ []

module _ {W Error JoinError : Type 0} (o : Outside W Error JoinError) where
  abbrev pub Answer : Type 0
  Answer = Result (MountError Error JoinError) (Unit {0}) × W

  -- The two `?` of `LedgerFuseService::mount`.
  abbrev flatten :
      Result JoinError (Result Error (Unit {0})) → Result (MountError Error JoinError) (Unit {0})
  flatten (err e) = err (join e)
  flatten (ok (err e)) = err (io e)
  flatten (ok (ok u)) = ok u

  pub mount_service : LedgerFuseService → W → Answer
  mount_service self w =
      let (r, after) = o.mount2 self.filesystem self.config.mount_point mount_options w in
      (flatten r, after)

  abbrev checked_status : Result Error Output → Result (MountError Error JoinError) (Unit {0})
  checked_status (err e) = err (io e)
  checked_status (ok output) =
      if output.success then ok tt else err (failed_to_unmount output.stderr)

  pub unmount_service : LedgerFuseService → W → Answer
  unmount_service self w =
      let (r, after) = o.command "fusermount" ("-u" ∷ self.config.mount_point ∷ []) w in
      (checked_status r, after)

  -- The lazy unmount is tried, and its result ignored.
  abbrev lazily : FuseConfig → Result Error Output × W → Answer
  lazily config (err e, w) = (err (io e), w)
  lazily config (ok output, w) =
      let (_, after) = o.command "fusermount" ("-uz" ∷ config.mount_point ∷ []) w in
      if output.success then (ok tt, w) else (ok tt, after)

  unfoldable pub unmount : MountManager → W → Answer
  unmount self w =
      lazily self.config (o.command "fusermount" ("-u" ∷ self.config.mount_point ∷ []) w)

  -- A result of the mount's task is logged, and `Ok` returned: the mount has ended, it has failed, or
  -- its task has panicked.
  abbrev pub after_select : MountManager → Ended Error JoinError × W → Answer
  after_select self (served (ok (ok u)), w) = (ok tt, w)
  after_select self (served (ok (err e)), w) = (ok tt, w)
  after_select self (served (err e), w) = (ok tt, w)
  after_select self (interrupted, w) = unmount self w

  abbrev with_directory : MountManager → Result Error (Unit {0}) × W → Answer
  with_directory self (err e, w) = (err (io e), w)
  with_directory self (ok u, w) =
      after_select self
        (o.mount_or_interrupt self.filesystem self.config.mount_point mount_options w)

  unfoldable pub mount_and_serve : MountManager → W → Answer
  mount_and_serve self w = with_directory self (o.create_dir_all self.config.mount_point w)
