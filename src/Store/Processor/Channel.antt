-- ===== src/Store/Processor/Channel.antt =====
-- What crates/ledgerfs-event-store/src/batch.rs uses of `tokio`: the bounded channel of `sync::mpsc`
-- and the creation of a timer by `time::interval`. `C` is the state of a channel.
use ledgerfs.Prelude.{
  ℕ, ◌≡◌, ◌≢◌, ◌≤◌, ◌<◌, Bool, true, false, Option, some, List, [], ◌∷◌, ◌++◌, length,
}
use ledgerfs.Core.Events.{EventEnvelope}

-- Where `recv` stands: it waits, or returns an event, or `None`.
pub data Recv (C : Type 0) : Type 0 where
  waits : Recv C
  takes : EventEnvelope → C → Recv C
  ends : Recv C

-- A channel of no capacity is a panic. `send` is `some` when it completes at once. The period of a
-- timer is in nanoseconds.
pub record Channel (C : Type 0) : Type 0 where
  pub channel : ℕ → Option C
  pub send : C → EventEnvelope → Option C
  pub recv : C → Recv C
  pub drop_senders : C → C
  pub interval_panics : ℕ → Bool

-- Its documentation: a bounded queue, whose receiver gets `None` once the senders are gone and the
-- queue is empty, and then does not wait; and a timer's creation, which panics for a zero period
-- and for no other.
pub record IsChannel {C : Type 0} (t : Channel C) : Type 0 where
  pub queued : C → List EventEnvelope
  pub closed : C → Bool
  pub capacity : C → ℕ
  pub channel_new :
      (n : ℕ) (c : C)
      → t.channel n ≡ some c
      → (queued c ≡ []) × (closed c ≡ false) × (capacity c ≡ n)
  pub send_queues :
      (c c' : C) (e : EventEnvelope)
      → t.send c e ≡ some c'
      → (queued c' ≡ queued c ++ e ∷ [])
        × (closed c ≡ false)
        × (closed c' ≡ false)
        × (capacity c' ≡ capacity c)
        × (length (queued c') ≤ capacity c)
  pub recv_takes :
      (c c' : C) (e : EventEnvelope)
      → t.recv c ≡ takes e c'
      → (queued c ≡ e ∷ queued c') × (closed c' ≡ closed c) × (capacity c' ≡ capacity c)
  pub recv_ends : (c : C) → t.recv c ≡ ends → (queued c ≡ []) × (closed c ≡ true)
  pub recv_wakes : (c : C) → closed c ≡ true → t.recv c ≢ waits
  pub drop_closes :
      (c : C)
      → (queued (t.drop_senders c) ≡ queued c)
        × (closed (t.drop_senders c) ≡ true)
        × (capacity (t.drop_senders c) ≡ capacity c)
  pub interval_zero : t.interval_panics 0 ≡ true
  pub interval_positive : (period : ℕ) → 0 < period → t.interval_panics period ≡ false
