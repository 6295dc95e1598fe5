-- ===== src/Fuse/Mount/Tests.antt =====
-- A mount that fails, and an unmount that needs the lazy command, in a world that counts commands.
use ledgerfs.Prelude.{ℕ, ◌+◌, ◌≡◌, ◌⊎◌, refl, String, true, false, [], Result, ok, err}
use ledgerfs.Fuse.Mount.{
  Output, Ended, served, interrupted, Outside, io, default_fuse_config, MountManager, new_manager,
  mount_and_serve,
}
use ledgerfs.Fuse.Filesystem.Tests.{services}
use ledgerfs.Fuse.Mount.Laws.{mount_and_serve_hides, mount_and_serve_interrupted}

abbrev manager : MountManager
manager = new_manager default_fuse_config services

abbrev refused_output : Output
refused_output = record { success = false; stderr = [] }

abbrev refused_result : Result String Output
refused_result = ok refused_output

abbrev broken : Ended String String → Outside ℕ String String
broken ended = record {
  command = λ program args n. (ok refused_output, n + 1);
  create_dir_all = λ path n. (ok tt, n);
  mount2 = λ fs path options n. (ok (err "no device"), n);
  mount_or_interrupt = λ fs path options n. (ended, n);
}

mount_and_serve_hides_test :
    mount_and_serve (broken (served (ok (err "no device")))) manager 0 ≡ (ok tt, 0)
mount_and_serve_hides_test =
    mount_and_serve_hides (broken (served (ok (err "no device")))) manager 0 0 0
      (ok (err "no device")) refl refl

mount_and_serve_interrupted_test :
    ((e : String) × (refused_result ≡ err e)
      × (mount_and_serve (broken interrupted) manager 0 ≡ (err (io e), 1)))
    ⊎ ((output : Output) × (refused_result ≡ ok output)
        × (output.success ≡ true)
        × (mount_and_serve (broken interrupted) manager 0 ≡ (ok tt, 1)))
    ⊎ ((output : Output) × (refused_result ≡ ok output)
        × (output.success ≡ false)
        × (mount_and_serve (broken interrupted) manager 0 ≡ (ok tt, 2)))
mount_and_serve_interrupted_test =
    mount_and_serve_interrupted (broken interrupted) manager 0 0 0 1 refused_result refl refl refl
