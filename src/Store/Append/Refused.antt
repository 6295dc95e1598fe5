-- ===== src/Store/Append/Refused.antt =====
-- A batch whose first event is stored already, for crates/ledgerfs-event-store/src/store.rs.
use ledgerfs.Prelude.{ℕ, ◌≡◌, refl, some, List, ◌∷◌, ok, err}
use ledgerfs.Prelude.Bytes.{Bytes}
use ledgerfs.Core.Events.{EventEnvelope}
use ledgerfs.Store.Platform.{Platform}
use ledgerfs.Store.EventStore.{EventStore, key_of, already_exists}
use ledgerfs.Store.Append.{
  prepare_event, prepare_events, write_batch, append_events, check_all, prepare_optimized,
  write_optimized, append_events_optimized,
}

module _ {Db Error : Type 0} (p : Platform Db Error) (self : EventStore Db) (e : EventEnvelope)
    (es : List EventEnvelope) (v : Bytes) where
  pub append_events_refused :
      p.rocks.get self.db (key_of p e) ≡ ok (some v)
      → append_events p self (e ∷ es) ≡ (err (already_exists p (key_of p e)), self)
  unfolding append_events prepare_events prepare_event write_batch
  append_events_refused h = rw h refl

  pub append_events_optimized_refused :
      (elapsed : ℕ)
      → p.rocks.get self.db (key_of p e) ≡ ok (some v)
      → append_events_optimized p self (e ∷ es) elapsed
        ≡ (err (already_exists p (key_of p e)), self)
  unfolding append_events_optimized prepare_optimized check_all write_optimized
  append_events_optimized_refused elapsed h = rw h refl
