-- ===== src/Fuse/Program/Main.antt =====
-- `main` of crates/ledgerfs-fuse/src/bin/ledgerfs-fuse.rs. The log is left out; `println` prints one
-- line to the world `W`, and the two identifiers are those that `AccountId::new` draws.
use Prim.Native.String.{◌++◌ as append_text}
use ledgerfs.Prelude.{
  ◌≡◌, refl, String, true, false, none, some, List, [], ◌∷◌, Result, ok, err, get_elem?,
}
use ledgerfs.Core.Types.{AccountId}
use ledgerfs.Fuse.Mount.{
  FuseConfig, MountManager, new_manager, Outside, MountError, served, mount_options,
  mount_and_serve,
}
use ledgerfs.Fuse.Mount.Laws.{mount_and_serve_hides}
use ledgerfs.Fuse.Program.{Environment, main_services}

-- How the process ends.
pub data Exit (E : Type 0) : Type 0 where
  returned : Result E (Unit {0}) → Exit E
  panicked : Exit E

abbrev pub mount_point_of : List String → String
mount_point_of args = elim (get_elem? args 1) [ none ↦ "/tmp/ledgerfs" | some s ↦ s ]

abbrev pub config_of : List String → FuseConfig
config_of args = record {
  mount_point = mount_point_of args;
  read_only = true;
  allow_other = false;
  auto_unmount = true;
}

module _ {W Error JoinError : Type 0} (o : Outside W Error JoinError) (println : String → W → W)
    (env : Environment) (first second : AccountId) where
  abbrev pub manager_of : List String → MountManager
  manager_of args = new_manager (config_of args) (main_services env first second)

  -- The lines up to the mount; `args[0]` panics without arguments.
  abbrev pub greeted : String → List String → W → W
  greeted program args w = println "Press Ctrl+C to unmount and exit" (
      println (append_text "Usage: " (append_text program " [mount_point]"))
        (println (append_text "LedgerFS FUSE - Mounting at: " (mount_point_of args)) w))

  abbrev finished :
      Result (MountError Error JoinError) (Unit {0}) × W → Exit (MountError Error JoinError) × W
  finished (err e, w) = (returned (err e), w)
  finished (ok u, w) = (returned (ok tt), println "LedgerFS unmounted successfully" w)

  unfoldable pub main : List String → W → Exit (MountError Error JoinError) × W
  main [] w =
      (panicked, println (append_text "LedgerFS FUSE - Mounting at: " (mount_point_of [])) w)
  main (program ∷ args) w =
      finished
        (mount_and_serve o (manager_of (program ∷ args)) (greeted program (program ∷ args) w))

  -- However a mount ends by itself, with success, an error or a panic of its task, once the directory
  -- was created: the program prints that it was unmounted with success, and returns `Ok`.
  pub main_hides :
      (program : String) (args : List String) (w w' w'' : W)
      (r : Result JoinError (Result Error (Unit {0})))
      → o.create_dir_all (mount_point_of (program ∷ args)) (greeted program (program ∷ args) w)
        ≡ (ok tt, w')
      → o.mount_or_interrupt
          (manager_of (program ∷ args)).filesystem
          (mount_point_of (program ∷ args))
          mount_options
          w'
        ≡ (served r, w'')
      → main (program ∷ args) w ≡ (returned (ok tt), println "LedgerFS unmounted successfully" w'')
  unfolding main
  main_hides program args w w' w'' r made ended =
      rw
        (mount_and_serve_hides o (manager_of (program ∷ args)) (greeted program (program ∷ args) w)
          w' w'' r made ended)
        refl
