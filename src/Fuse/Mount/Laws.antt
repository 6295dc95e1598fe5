-- ===== src/Fuse/Mount/Laws.antt =====
-- What the callers of `MountManager` of crates/ledgerfs-fuse/src/mount.rs learn.
use ledgerfs.Prelude.{◌≡◌, ◌⊎◌, refl, true, false, [], ◌∷◌, Result, ok, err, inl, inr, Bool-cases}
use ledgerfs.Fuse.Mount.{
  MountManager, Output, served, interrupted, Outside, io, mount_options, unmount, mount_and_serve,
}

module _ {W Error JoinError : Type 0} (o : Outside W Error JoinError) (self : MountManager)
    (w : W) where
  -- The directory of the mount point is there, and the state after its creation is `w'`.
  abbrev pub Created : W → Type 0
  Created w' = o.create_dir_all self.config.mount_point w ≡ (ok tt, w')

  -- However the mount ended by itself, with success, an error or a panic of its task, `mount_and_serve`
  -- returns `Ok` once the directory is there.
  pub mount_and_serve_hides :
      (w' w'' : W) (r : Result JoinError (Result Error (Unit {0})))
      → Created w'
      → o.mount_or_interrupt self.filesystem self.config.mount_point mount_options w'
        ≡ (served r, w'')
      → mount_and_serve o self w ≡ (ok tt, w'')
  unfolding mount_and_serve
  mount_and_serve_hides w' w'' (ok (ok u)) made ended = rw made (rw ended refl)
  mount_and_serve_hides w' w'' (ok (err e)) made ended = rw made (rw ended refl)
  mount_and_serve_hides w' w'' (err e) made ended = rw made (rw ended refl)

  -- After an interrupt, `mount_and_serve` returns `Ok` exactly when `fusermount` could be started; when
  -- that did not succeed, the lazy unmount has been run.
  pub mount_and_serve_interrupted :
      (w' w'' w''' : W) (r : Result Error Output)
      → Created w'
      → o.mount_or_interrupt self.filesystem self.config.mount_point mount_options w'
        ≡ (interrupted, w'')
      → o.command "fusermount" ("-u" ∷ self.config.mount_point ∷ []) w'' ≡ (r, w''')
      → ((e : Error) × (r ≡ err e) × (mount_and_serve o self w ≡ (err (io e), w''')))
        ⊎ ((output : Output) × (r ≡ ok output)
            × (output.success ≡ true)
            × (mount_and_serve o self w ≡ (ok tt, w''')))
        ⊎ ((output : Output) × (r ≡ ok output)
            × (output.success ≡ false)
            × (mount_and_serve o self w
                ≡ (ok tt, (o.command "fusermount" ("-uz" ∷ self.config.mount_point ∷ []) w''').1)))
  unfolding mount_and_serve unmount
  mount_and_serve_interrupted w' w'' w''' (err e) made ended ran =
      inl (e, refl, rw made (rw ended (rw ran refl)))
  mount_and_serve_interrupted w' w'' w''' (ok output) made ended ran =
      elim (Bool-cases output.success) [
        | inl good ↦ inr (inl (output, refl, good, rw made (rw ended (rw ran (rw good refl)))))
        | inr bad ↦ inr (inr (output, refl, bad, rw made (rw ended (rw ran (rw bad refl)))))
      ]
