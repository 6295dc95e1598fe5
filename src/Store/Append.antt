-- ===== src/Store/Append.antt =====
-- The three append operations of `EventStore`, and `compact`.
pub mod Prepared
pub mod Laws
pub mod History
pub mod Unchanged
pub mod Refused
pub mod Tests
use ledgerfs.Prelude.{
  ℕ, ◌+◌, false, List, [], ◌∷◌, ok, err, ◌>>=◌, ◌>>◌, if◌then◌else◌, length, ltb,
}
use ledgerfs.Core.Events.{EventEnvelope}
use ledgerfs.Store.Table.{Entry}
use ledgerfs.Store.Rocks.{WriteOptions}
use ledgerfs.Store.Platform.{Platform}
use ledgerfs.Store.EventStore.{
  EventStore, AppendResult, Outcome, key_of, check_absent, encode, write_options, written,
}

module _ {Db Error : Type 0} (p : Platform Db Error) where
  -- The checks and the encoding that stand before the write.
  pub prepare_event : EventStore Db → EventEnvelope → Outcome p Entry
  prepare_event self envelope = do
    let key = key_of p envelope
    check_absent p self key
    value ← encode p self envelope
    ok (key, value)

  pub put_entry : EventStore Db → Outcome p Entry → Outcome p (Unit {0}) × EventStore Db
  put_entry self (err e) = (err e, self)
  put_entry self (ok (key, value)) =
      written p self tt (p.rocks.put_opt self.db key value (write_options p self))

  pub append_event : EventStore Db → EventEnvelope → Outcome p (Unit {0}) × EventStore Db
  append_event self envelope = put_entry self (prepare_event self envelope)

  -- The loop of `append_events`: each event is checked and encoded in turn.
  pub prepare_events : EventStore Db → List EventEnvelope → Outcome p (List Entry)
  prepare_events self [] = ok []
  prepare_events self (envelope ∷ envelopes) = do
    entry ← prepare_event self envelope
    batch ← prepare_events self envelopes
    ok (entry ∷ batch)

  pub write_batch : EventStore Db → Outcome p (List Entry) → Outcome p (Unit {0}) × EventStore Db
  write_batch self (err e) = (err e, self)
  write_batch self (ok batch) =
      written p self tt (p.rocks.write_opt self.db batch (write_options p self))

  unfoldable pub append_events :
      EventStore Db → List EventEnvelope → Outcome p (Unit {0}) × EventStore Db
  append_events self [] = (ok tt, self)
  append_events self (envelope ∷ envelopes) =
      write_batch self (prepare_events self (envelope ∷ envelopes))

  -- The two loops of `append_events_optimized`.
  pub check_all : EventStore Db → List EventEnvelope → Outcome p (Unit {0})
  check_all self [] = ok tt
  check_all self (envelope ∷ envelopes) = do
    check_absent p self (key_of p envelope)
    check_all self envelopes

  -- The batch, and the bytes that it holds.
  pub encode_all : EventStore Db → List EventEnvelope → ℕ → Outcome p (List Entry × ℕ)
  encode_all self [] total_bytes = ok ([], total_bytes)
  encode_all self (envelope ∷ envelopes) total_bytes = do
    let key = key_of p envelope
    value ← encode p self envelope
    (batch, bytes) ← encode_all self envelopes (total_bytes + (length key + length value))
    ok ((key, value) ∷ batch, bytes)

  pub prepare_optimized : EventStore Db → List EventEnvelope → Outcome p (List Entry × ℕ)
  prepare_optimized self envelopes = do check_all self envelopes; encode_all self envelopes 0

  -- A batch of more than a hundred events is written without a sync.
  pub optimized_options : EventStore Db → List EventEnvelope → WriteOptions
  optimized_options self envelopes =
      if ltb 100 (length envelopes)
      then record (write_options p self) { sync = false }
      else write_options p self

  pub write_optimized :
      EventStore Db
      → List EventEnvelope
      → ℕ
      → Outcome p (List Entry × ℕ)
      → Outcome p AppendResult × EventStore Db
  write_optimized self envelopes elapsed (err e) = (err e, self)
  write_optimized self envelopes elapsed (ok (batch, total_bytes)) =
      written p self
        (record {
          events_written = length envelopes;
          bytes_written = total_bytes;
          write_duration = elapsed;
        })
        (p.rocks.write_opt self.db batch (optimized_options self envelopes))

  -- `elapsed` is what the clock measures of the write.
  pub append_events_optimized :
      EventStore Db → List EventEnvelope → ℕ → Outcome p AppendResult × EventStore Db
  append_events_optimized self [] elapsed =
      (ok (record { events_written = 0; bytes_written = 0; write_duration = 0 }), self)
  append_events_optimized self (envelope ∷ envelopes) elapsed =
      write_optimized self (envelope ∷ envelopes) elapsed
        (prepare_optimized self (envelope ∷ envelopes))

  pub compact : EventStore Db → Outcome p (Unit {0}) × EventStore Db
  compact self = (ok tt, record self { db = p.rocks.compact_range self.db })
