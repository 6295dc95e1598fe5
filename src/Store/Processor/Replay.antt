-- ===== src/Store/Processor/Replay.antt =====
-- A sequence of operations on the store, one longer; and an append of crates/ledgerfs-event-store/src/batch.rs
-- as an operation.
use mathlib.Core.List.{append-nil}
use ledgerfs.Prelude.{
  ℕ, ◌+◌, ◌≡◌, refl, Bool, List, [], ◌∷◌, ◌++◌, arith, Bool-cases, inl, inr, count, count-append,
  if◌then◌else◌,
}
use ledgerfs.Core.Events.{EventEnvelope}
use ledgerfs.Store.Platform.{Platform}
use ledgerfs.Store.EventStore.{EventStore}
use ledgerfs.Store.Append.History.{Operation, perform, perform_all}
use ledgerfs.Store.Batch.{BatchConfig}
use ledgerfs.Store.Ledger.{events_of, is_ok, accepted, recorded}
use ledgerfs.Store.Processor.Metrics.{append_batch}
use ledgerfs.Store.Processor.Worker.{flush_operation}

pub events_of-flush_operation :
    (config : BatchConfig) (es : List EventEnvelope) (elapsed : ℕ)
    → events_of (flush_operation config es elapsed) ≡ es
events_of-flush_operation config es elapsed = elim (Bool-cases config.use_optimized_append) [
  | inl e ↦ rw e refl
  | inr e ↦ rw e refl
]

module _ {Db Error : Type 0} (p : Platform Db Error) where
  -- All events of the operations that fail.
  unfoldable pub refused : EventStore Db → List Operation → List EventEnvelope
  refused self [] = []
  refused self (operation ∷ operations) =
      let rest = refused (perform p self operation) operations in
      if accepted p self operation then rest else events_of operation ++ rest

  pub perform_all-append :
      (self : EventStore Db) (a b : List Operation)
      → perform_all p self (a ++ b) ≡ perform_all p (perform_all p self a) b
  unfolding perform_all
  perform_all-append self [] b = refl
  perform_all-append self (operation ∷ a) b = perform_all-append (perform p self operation) a b

  pub count-recorded :
      (q : EventEnvelope → Bool) (self : EventStore Db) (a b : List Operation)
      → count q (recorded p self (a ++ b))
        ≡ count q (recorded p self a) + count q (recorded p (perform_all p self a) b)
  unfolding perform_all recorded
  count-recorded q self [] b = omega arith
  count-recorded q self (operation ∷ a) b =
      let self' = perform p self operation in
      elim (Bool-cases (accepted p self operation)) [
        | inl good ↦ rw good (
            omega (
              arith,
              count-recorded q self' a b,
              count-append q (events_of operation) (recorded p self' (a ++ b)),
              count-append q (events_of operation) (recorded p self' a),
            ))
        | inr bad ↦ rw bad (count-recorded q self' a b)
      ]

  pub count-refused :
      (q : EventEnvelope → Bool) (self : EventStore Db) (a b : List Operation)
      → count q (refused self (a ++ b))
        ≡ count q (refused self a) + count q (refused (perform_all p self a) b)
  unfolding perform_all refused
  count-refused q self [] b = omega arith
  count-refused q self (operation ∷ a) b =
      let self' = perform p self operation in
      elim (Bool-cases (accepted p self operation)) [
        | inl good ↦ rw good (count-refused q self' a b)
        | inr bad ↦ rw bad (
            omega (
              arith,
              count-refused q self' a b,
              count-append q (events_of operation) (refused self' (a ++ b)),
              count-append q (events_of operation) (refused self' a),
            ))
      ]

  -- One operation is recorded or refused as a whole.
  pub count-one :
      (q : EventEnvelope → Bool) (self : EventStore Db) (operation : Operation)
      → count q (recorded p self (operation ∷ [])) + count q (refused self (operation ∷ []))
        ≡ count q (events_of operation)
  unfolding recorded refused
  count-one q self operation = elim (Bool-cases (accepted p self operation)) [
    | inl good ↦ rw good (rw (append-nil (events_of operation)) (omega arith))
    | inr bad ↦ rw bad (rw (append-nil (events_of operation)) (omega arith))
  ]

  pub append_batch-perform :
      (config : BatchConfig) (self : EventStore Db) (es : List EventEnvelope) (elapsed : ℕ)
      → (append_batch p config self es elapsed).1
        ≡ perform p self (flush_operation config es elapsed)
  unfolding append_batch perform
  append_batch-perform config self es elapsed = elim (Bool-cases config.use_optimized_append) [
    | inl e ↦ rw e refl
    | inr e ↦ rw e refl
  ]

  pub append_batch-accepted :
      (config : BatchConfig) (self : EventStore Db) (es : List EventEnvelope) (elapsed : ℕ)
      → is_ok (append_batch p config self es elapsed).0
        ≡ accepted p self (flush_operation config es elapsed)
  unfolding append_batch accepted
  append_batch-accepted config self es elapsed = elim (Bool-cases config.use_optimized_append) [
    | inl e ↦ rw e (ground arith)
    | inr e ↦ rw e (ground arith)
  ]
