-- ===== src/Store/Processor/Tests/Queue.antt =====
-- A bounded queue that meets what `tokio::sync::mpsc` documents.
use ledgerfs.Prelude.{
  ℕ, ◌≤◌, ◌<◌, ◌≢◌, ◌≡◌, refl, Bool, true, false, not, ◌&&◌, none, some, List, [], ◌∷◌, ◌++◌, arith,
  length, length-append, ltb, ◌==◌, if◌then◌else◌,
}
use ledgerfs.Core.Events.{EventEnvelope}
use ledgerfs.Store.Processor.Channel.{Recv, waits, takes, ends, Channel, IsChannel}

pub record Buffer : Type 0 where
  pub queue : List EventEnvelope
  pub is_closed : Bool
  pub size : ℕ

abbrev pub receive : List EventEnvelope → Bool → ℕ → Recv Buffer
receive [] true size = ends
receive [] false size = waits
receive (e ∷ queue) is_closed size =
    takes e (record { queue = queue; is_closed = is_closed; size = size })

abbrev pub buffer : Channel Buffer
buffer = record {
  channel = λ n. if n == 0 then none else some (record { queue = []; is_closed = false; size = n });
  send = λ c e.
      if not c.is_closed && ltb (length c.queue) c.size
      then some (record c { queue = c.queue ++ e ∷ [] })
      else none;
  recv = λ c. receive c.queue c.is_closed c.size;
  drop_senders = λ c. record c { is_closed = true };
  interval_panics = λ period. period == 0;
}

pub new_queue :
    (n : ℕ) (c : Buffer)
    → buffer.channel n ≡ some c
    → (c.queue ≡ []) × (c.is_closed ≡ false) × (c.size ≡ n)
new_queue n c h = ground arith

pub send_queue :
    (c c' : Buffer) (e : EventEnvelope)
    → buffer.send c e ≡ some c'
    → (c'.queue ≡ c.queue ++ e ∷ [])
      × (c.is_closed ≡ false)
      × (c'.is_closed ≡ false)
      × (c'.size ≡ c.size)
      × (length c'.queue ≤ c.size)
send_queue c c' e h = ground (arith, length-append c.queue (e ∷ []))

pub receive_queue :
    (queue : List EventEnvelope) (is_closed : Bool) (size : ℕ) (c' : Buffer) (e : EventEnvelope)
    → receive queue is_closed size ≡ takes e c'
    → (queue ≡ e ∷ c'.queue) × (c'.is_closed ≡ is_closed) × (c'.size ≡ size)
receive_queue [] true size c' e h = absurd (cc h)
receive_queue [] false size c' e h = absurd (cc h)
receive_queue (x ∷ queue) is_closed size c' e h = (cc h, cc h, cc h)

pub receive_ended :
    (queue : List EventEnvelope) (is_closed : Bool) (size : ℕ)
    → receive queue is_closed size ≡ ends
    → (queue ≡ []) × (is_closed ≡ true)
receive_ended [] true size h = (refl, refl)
receive_ended [] false size h = absurd (cc h)
receive_ended (e ∷ queue) is_closed size h = absurd (cc h)

pub receive_woken :
    (queue : List EventEnvelope) (is_closed : Bool) (size : ℕ)
    → is_closed ≡ true
    → receive queue is_closed size ≢ waits
receive_woken [] true size h k = absurd (cc k)
receive_woken [] false size h k = absurd (cc h)
receive_woken (e ∷ queue) is_closed size h k = absurd (cc k)

pub made : (period : ℕ) → 0 < period → (period == 0) ≡ false
made period h = ground arith

abbrev pub documented_buffer : IsChannel buffer
documented_buffer = record {
  queued = λ c. c.queue;
  closed = λ c. c.is_closed;
  capacity = λ c. c.size;
  channel_new = new_queue;
  send_queues = send_queue;
  recv_takes = λ c c' e h. receive_queue c.queue c.is_closed c.size c' e h;
  recv_ends = λ c h. receive_ended c.queue c.is_closed c.size h;
  recv_wakes = λ c h. receive_woken c.queue c.is_closed c.size h;
  drop_closes = λ c. (refl, refl, refl);
  interval_zero = refl;
  interval_positive = made;
}
