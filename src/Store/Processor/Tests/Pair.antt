-- ===== src/Store/Processor/Tests/Pair.antt =====
-- A run of a processor with one task that receives two events, on the database in memory. The
-- numbers of the metrics are whole.
use ledgerfs.Prelude.{ℕ, ◌≡◌, refl, ◌*◌, ◌/◌, ◌+◌, Bool, true, false, String, List, [], ◌∷◌, ltb}
use ledgerfs.Core.Events.{EventEnvelope}
use ledgerfs.Store.Tests.Memory.{Memory, memory, empty_store}
use ledgerfs.Store.Batch.{BatchConfig, low_latency}
use ledgerfs.Store.Processor.Tests.Queue.{Buffer, buffer, documented_buffer}
use ledgerfs.Store.Processor.Metrics.{Float, append_batch, count_flush, default_metrics}
use ledgerfs.Store.Processor.Worker.{
  stopped, entered, received, disconnected, appended, counted, on_event, on_closed, flush_operation,
}
use ledgerfs.Store.Processor.System.{
  System, start, send, all_stopped, Reach, started, later, worked, sends, closes,
}
use ledgerfs.Store.Processor.Settled.{NoShutdown}

abbrev pub whole : Float ℕ
whole = record {
  of_nat = λ n. n;
  as_secs = λ n. n / 1000000000;
  div = λ a b. a / b;
  mul = λ a b. a * b;
  plus = λ a b. a + b;
  gt = λ a b. ltb b a;
  as_u64 = λ n. n;
}

-- With or without the optimised append.
abbrev pub pairs_of : Bool → BatchConfig
pairs_of optimized = record low_latency {
  max_batch_size = 2;
  num_processors = 1;
  buffer_size = 2;
  use_optimized_append = optimized;
}

module _ (optimized : Bool) (a b : EventEnvelope) where
  abbrev both_of : List EventEnvelope
  both_of = a ∷ b ∷ []

  abbrev pub end_of : System Memory String ℕ Buffer
  end_of = record {
    shared = record {
      store = (append_batch memory (pairs_of optimized) empty_store both_of 5).1;
      channel = record { queue = []; is_closed = true; size = 2 };
      metrics =
          count_flush memory whole 2 0 0
            (append_batch memory (pairs_of optimized) empty_store both_of 5).0
            (default_metrics whole);
      now = 0;
    };
    workers = stopped ∷ [];
    sent = both_of;
    history = flush_operation (pairs_of optimized) both_of 5 ∷ [];
  }

  unfoldable pub processed : Reach memory whole buffer (pairs_of optimized) empty_store 0 end_of
  unfolding start send on_event on_closed all_stopped
  processed =
      let queue : List EventEnvelope → Buffer =
        λ q. record { queue = q; is_closed = false; size = 2 } in
      later
        (later
          (later
            (later
              (later
                (later
                  (later
                    (later (later (started refl) (sends a (queue (a ∷ [])) refl refl))
                      (sends b (queue both_of) refl refl))
                    (worked [] [] refl (entered refl)))
                  (worked [] [] refl (received a (queue (b ∷ [])) refl)))
                (worked [] [] refl (received b (queue []) refl)))
              (worked [] [] refl (appended 5)))
            (worked [] [] refl counted))
          closes)
        (worked [] [] refl (disconnected refl))

  pub unhindered : NoShutdown memory whole buffer documented_buffer (pairs_of optimized) processed
  unfolding processed
  unhindered = (((((((((tt, tt), tt), tt), tt), tt), tt), tt), tt), tt)

  pub ended : all_stopped end_of.workers ≡ true
  unfolding all_stopped
  ended = refl
