-- ===== src/Store/Keys/Tests.antt =====
-- Keys of the sample events.
use Prim.Native.Nat.{Ordering}
use ledgerfs.Prelude.{◌<◌, ◌≡◌, refl, ◌↔◌, arith, length, replicate}
use ledgerfs.Prelude.Int.{pos, negsuc}
use ledgerfs.Prelude.Bytes.{compare_bytes}
use ledgerfs.Core.Types.{before, event_id_of}
use ledgerfs.Core.Events.{EventEnvelope}
use ledgerfs.Store.Table.{is_below}
use ledgerfs.Store.Tests.Memory.{first, second, sample}
use ledgerfs.Store.Keys.{documented_chrono, generate_event_key, generate_time_key_prefix}
use ledgerfs.Store.Keys.Order.{
  IsStampable, generate_event_key_lt, generate_event_key_before_epoch, generate_event_key_beyond,
  is_below-generate_time_key_prefix, generate_event_key_inj, length-generate_event_key,
}

at_300 : IsStampable (pos 300)
at_300 = record { since_epoch = omega arith; in_range = (omega arith, omega arith) }

at_700 : IsStampable (pos 700)
at_700 = record { since_epoch = omega arith; in_range = (omega arith, omega arith) }

generate_event_key_lt_example :
    compare_bytes
      (generate_event_key documented_chrono first)
      (generate_event_key documented_chrono second)
    ≡ Ordering.lt
generate_event_key_lt_example =
    generate_event_key_lt documented_chrono (λ t. refl) first second at_300 at_700 (omega arith)

-- An event of the year 2554.
abbrev far : EventEnvelope
far = sample 6 (pos 18446744073709551616)

generate_event_key_beyond_example :
    compare_bytes
      (generate_event_key documented_chrono far)
      (generate_event_key documented_chrono first)
    ≡ Ordering.lt
generate_event_key_beyond_example =
    generate_event_key_beyond documented_chrono (λ t. refl) far first refl (omega arith)
      (omega arith, omega arith)

-- An event ten nanoseconds before 1970.
abbrev old : EventEnvelope
old = sample 5 (negsuc 9)

generate_event_key_before_epoch_example :
    compare_bytes
      (generate_event_key documented_chrono first)
      (generate_event_key documented_chrono old)
    ≡ Ordering.lt
generate_event_key_before_epoch_example =
    generate_event_key_before_epoch documented_chrono (λ t. refl) old first (omega arith)
      (omega arith, omega arith) at_300

is_below-generate_time_key_prefix_test :
    is_below
      (generate_event_key documented_chrono first)
      (generate_time_key_prefix documented_chrono (pos 700))
    ≡ before (pos 300) (pos 700)
is_below-generate_time_key_prefix_test =
    is_below-generate_time_key_prefix documented_chrono (λ t. refl) first (pos 700) at_300 at_700

generate_event_key_inj_test :
    (generate_event_key documented_chrono first ≡ generate_event_key documented_chrono second)
    ↔ ((first.timestamp ≡ second.timestamp) × (first.event_id ≡ second.event_id))
generate_event_key_inj_test =
    generate_event_key_inj documented_chrono (λ t. refl) first second at_300 at_700

abbrev with_uuid : EventEnvelope
with_uuid = record first { event_id = event_id_of (replicate 16 9) }

small : 9 < 256
small = omega arith

length-generate_event_key_test : length (generate_event_key documented_chrono with_uuid) ≡ 24
length-generate_event_key_test =
    length-generate_event_key documented_chrono (λ t. refl) with_uuid
      (
        refl,
        (
          small,
          (
            small,
            (
              small,
              (
                small,
                (
                  small,
                  (
                    small,
                    (
                      small,
                      (
                        small,
                        (small, (small, (small, (small, (small, (small, (small, (small, tt)))))))),
                      ),
                    ),
                  ),
                ),
              ),
            ),
          ),
        ),
      )
