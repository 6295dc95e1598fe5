-- ===== src/Store/Append/Prepared.antt =====
-- What the checks and the encoding of the append operations come to.
use ledgerfs.Prelude.{ℕ, ◌+◌, ◌≡◌, refl, ◌↔◌, none, List, [], ◌∷◌, ok, arith, length, >>=-eq-ok}
use ledgerfs.Prelude.Bytes.{Bytes}
use ledgerfs.Core.Events.{EventEnvelope}
use ledgerfs.Store.Table.{Entry}
use ledgerfs.Store.Codec.{serialize}
use ledgerfs.Store.Platform.{Platform}
use ledgerfs.Store.EventStore.{EventStore, key_of, encode}
use ledgerfs.Store.Append.{prepare_event, prepare_events, check_all, encode_all, prepare_optimized}

-- The bytes of a batch.
abbrev pub batch_bytes : List Entry → ℕ
batch_bytes [] = 0
batch_bytes ((k, v) ∷ batch) = length k + length v + batch_bytes batch

module _ {Db Error : Type 0} (p : Platform Db Error) where
  -- The batch holds the key and the encoding of each event in turn, and the database reads every
  -- key as absent.
  abbrev pub Prepared : EventStore Db → List EventEnvelope → List Entry → Type 0
  Prepared self [] [] = Unit
  Prepared self [] (entry ∷ batch) = ⊥
  Prepared self (envelope ∷ envelopes) [] = ⊥
  Prepared self (envelope ∷ envelopes) ((k, v) ∷ batch) =
      (k ≡ key_of p envelope)
      × (p.rocks.get self.db k ≡ ok none)
      × (serialize p.codec self.serializer envelope ≡ ok v)
      × Prepared self envelopes batch

  pub prepare_event-ok :
      (self : EventStore Db) (envelope : EventEnvelope) (entry : Entry)
      → prepare_event p self envelope ≡ ok entry
      → Prepared self (envelope ∷ []) (entry ∷ [])
  unfolding prepare_event
  prepare_event-ok self envelope entry h = ground arith

  pub prepare_event_of :
      (self : EventStore Db) (envelope : EventEnvelope) (entry : Entry)
      → Prepared self (envelope ∷ []) (entry ∷ [])
      → prepare_event p self envelope ≡ ok entry
  unfolding prepare_event
  prepare_event_of self envelope entry h = ground arith

  pub prepare_events-ok :
      (self : EventStore Db) (envelopes : List EventEnvelope) (batch : List Entry)
      → prepare_events p self envelopes ≡ ok batch
      → Prepared self envelopes batch
  unfolding prepare_events
  prepare_events-ok self [] [] h = tt
  prepare_events-ok self [] (entry ∷ batch) h = cc
  prepare_events-ok self (envelope ∷ envelopes) [] h =
      let (e, he, rest) = >>=-eq-ok (prepare_event p self envelope) _ h in
      let (b, hb, done) = >>=-eq-ok (prepare_events p self envelopes) _ rest in cc
  prepare_events-ok self (envelope ∷ envelopes) (entry ∷ batch) h =
      let (e, he, rest) = >>=-eq-ok (prepare_event p self envelope) _ h in
      let (b, hb, done) = >>=-eq-ok (prepare_events p self envelopes) _ rest in
      ground (arith, prepare_event-ok self envelope e, prepare_events-ok self envelopes b hb)

  pub prepare_events_of :
      (self : EventStore Db) (envelopes : List EventEnvelope) (batch : List Entry)
      → Prepared self envelopes batch
      → prepare_events p self envelopes ≡ ok batch
  unfolding prepare_events
  prepare_events_of self [] [] h = refl
  prepare_events_of self [] (entry ∷ batch) h = absurd h
  prepare_events_of self (envelope ∷ envelopes) [] h = absurd h
  prepare_events_of self (envelope ∷ envelopes) (entry ∷ batch) h =
      rw (prepare_event_of self envelope entry (h.0, h.1, h.2, tt))
        (rw (prepare_events_of self envelopes batch h.3))

  check_all-ok :
      (self : EventStore Db) (envelope : EventEnvelope) (envelopes : List EventEnvelope)
      → check_all p self (envelope ∷ envelopes) ≡ ok tt
      → (p.rocks.get self.db (key_of p envelope) ≡ ok none) × (check_all p self envelopes ≡ ok tt)
  unfolding check_all
  check_all-ok self envelope envelopes h = ground arith

  encode_all-ok :
      (self : EventStore Db) (envelope : EventEnvelope) (envelopes : List EventEnvelope) (n m : ℕ)
      (batch : List Entry)
      → encode_all p self (envelope ∷ envelopes) n ≡ ok (batch, m)
      → (v : Bytes) × (rest : List Entry) × (batch ≡ (key_of p envelope, v) ∷ rest)
        × (serialize p.codec self.serializer envelope ≡ ok v)
        × (encode_all p self envelopes (n + (length (key_of p envelope) + length v)) ≡ ok (rest, m))
  unfolding encode_all
  encode_all-ok self envelope envelopes n m batch h =
      let (v, hv, more) = >>=-eq-ok (encode p self envelope) _ h in
      let (r, hr, done) = >>=-eq-ok (encode_all p self envelopes _) _ more in
      (v, r.0, ground arith, ground arith, ground arith)

  encode_all-nil :
      (self : EventStore Db) (n m : ℕ) (batch : List Entry)
      → encode_all p self [] n ≡ ok (batch, m)
      → (batch ≡ []) × (m ≡ n)
  unfolding encode_all
  encode_all-nil self n m batch h = ground arith

  optimized-Prepared :
      (self : EventStore Db) (envelopes : List EventEnvelope) (n m : ℕ) (batch : List Entry)
      → check_all p self envelopes ≡ ok tt
      → encode_all p self envelopes n ≡ ok (batch, m)
      → Prepared self envelopes batch × (m ≡ n + batch_bytes batch)
  optimized-Prepared self [] n m batch c h =
      let (none_left, same) = encode_all-nil self n m batch h in
      rw none_left (tt, omega (arith, same))
  optimized-Prepared self (envelope ∷ envelopes) n m batch c h =
      let (v, rest, e, hv, hr) = encode_all-ok self envelope envelopes n m batch h in
      let (absent, others) = check_all-ok self envelope envelopes c in
      let (prepared, bytes) = optimized-Prepared self envelopes _ m rest others hr in
      rw e ((refl, absent, hv, prepared), omega (arith, bytes))

  Prepared-optimized :
      (self : EventStore Db) (envelopes : List EventEnvelope) (batch : List Entry) (n : ℕ)
      → Prepared self envelopes batch
      → (check_all p self envelopes ≡ ok tt)
        × (encode_all p self envelopes n ≡ ok (batch, n + batch_bytes batch))
  unfolding check_all encode_all
  Prepared-optimized self [] [] n h = (refl, ground arith)
  Prepared-optimized self [] (entry ∷ batch) n h = absurd h
  Prepared-optimized self (envelope ∷ envelopes) [] n h = absurd h
  Prepared-optimized self (envelope ∷ envelopes) ((k, v) ∷ batch) n h =
      ground (arith, Prepared-optimized self envelopes batch (n + (length k + length v)) h.3)

  -- The two loops of `append_events_optimized` prepare the batch that the one loop of
  -- `append_events` does, and count its bytes.
  pub prepare_optimized-prepare_events :
      (self : EventStore Db) (envelopes : List EventEnvelope) (batch : List Entry) (n : ℕ)
      → (prepare_optimized p self envelopes ≡ ok (batch, n))
        ↔ ((prepare_events p self envelopes ≡ ok batch) × (n ≡ batch_bytes batch))
  unfolding prepare_optimized
  prepare_optimized-prepare_events self envelopes batch n = (
    λ h.
        let (_, c, more) = >>=-eq-ok (check_all p self envelopes) _ h in
        let (prepared, bytes) = optimized-Prepared self envelopes 0 n batch c more in
        (prepare_events_of self envelopes batch prepared, omega arith),
    λ h.
        let e =
          Prepared-optimized self envelopes batch 0 (prepare_events-ok self envelopes batch h.0) in
        rw e.0 (rw e.1 (ground (arith, h.1))),
  )

  pub Prepared-single :
      (self : EventStore Db) (a : EventEnvelope) (batch : List Entry)
      → Prepared self (a ∷ []) batch
      → (v : Bytes) × (batch ≡ (key_of p a, v) ∷ []) × (serialize p.codec self.serializer a ≡ ok v)
  Prepared-single self a [] h = absurd h
  Prepared-single self a ((k, v) ∷ []) h = (v, ground arith, h.2)
  Prepared-single self a (_ ∷ _ ∷ _) h = absurd h.3

  pub Prepared-pair :
      (self : EventStore Db) (a b : EventEnvelope) (batch : List Entry)
      → Prepared self (a ∷ b ∷ []) batch
      → (v w : Bytes) × (batch ≡ (key_of p a, v) ∷ (key_of p b, w) ∷ [])
        × (serialize p.codec self.serializer b ≡ ok w)
  Prepared-pair self a b [] h = absurd h
  Prepared-pair self a b ((k, v) ∷ []) h = absurd h.3
  Prepared-pair self a b ((k, v) ∷ (l, w) ∷ []) h = (v, w, ground arith, h.3.2)
  Prepared-pair self a b (_ ∷ _ ∷ _ ∷ _) h = absurd h.3.3
