-- ===== src/Store/Keys/Order.antt =====
-- Keys compare as their times do, so that the store iterates in the order of time.
use Prim.Native.Nat.{Ordering}
use ledgerfs.Prelude.{
  ℕ, true, false, ◌^◌, ◌<◌, ◌≡◌, refl, ap, ◌∙◌, ltb, ◌↔◌, arith, length, length-append,
}
use ledgerfs.Prelude.Int.{
  pos, negsuc, ◌≤ℤ◌, ◌<ℤ◌, InI64, in_i64, in_i64_of_InI64, eq_of_parts, pos_part, neg_part, as_u64,
}
use ledgerfs.Prelude.Bytes.{compare_bytes}
use ledgerfs.Core.Types.{DateTime, before, event_id_of, IsUuid}
use ledgerfs.Core.Events.{EventEnvelope}
use ledgerfs.Store.Table.{is_below}
use ledgerfs.Store.Keys.Digits.{length-be_bytes, be_bytes_lt, be_bytes_append_inj, is_below_prefix}
use ledgerfs.Store.Keys.{
  Chrono, IsChrono, be_bytes, generate_event_key, generate_time_key_prefix, timestamp_nanos,
}

-- A time from 1970 on whose nanoseconds fit an `i64` (to the year 2262).
pub record IsStampable (t : DateTime) : Type 0 where
  pub since_epoch : pos 0 ≤ℤ t
  pub in_range : InI64 t

as_u64_stampable : (t : DateTime) → IsStampable t → as_u64 t ≡ pos_part t
as_u64_stampable (pos n) h = omega arith
as_u64_stampable (negsuc n) h = absurd (omega arith)

neg_part_stampable : (t : DateTime) → IsStampable t → neg_part t ≡ 0
neg_part_stampable (pos n) h = refl
neg_part_stampable (negsuc n) h = absurd (omega arith)

as_u64-lt : (t : DateTime) → as_u64 t < 256 ^ 8
as_u64-lt (pos n) = omega arith
as_u64-lt (negsuc n) = omega arith

as_u64_before_epoch :
    (a b : DateTime) → a <ℤ pos 0 → InI64 a → IsStampable b → pos_part b < as_u64 a
as_u64_before_epoch (pos n) b old ha hb = absurd (omega arith)
as_u64_before_epoch (negsuc n) b old ha hb = omega arith

ltb_stampable :
    (a b : DateTime) → IsStampable a → IsStampable b → ltb (pos_part a) (pos_part b) ≡ before a b
ltb_stampable a b ha hb = ground arith

ltb_of_lt : (m n : ℕ) → m < n → ltb m n ≡ true
ltb_of_lt m n h = ground arith

module _ (c : Chrono) (documented : IsChrono c) where
  timestamp_nanos_exact : (t : DateTime) → InI64 t → timestamp_nanos c t ≡ as_u64 t
  timestamp_nanos_exact t h = rw (documented t) (rw (in_i64_of_InI64 t h))

  pub timestamp_nanos_stampable : (t : DateTime) → IsStampable t → timestamp_nanos c t ≡ pos_part t
  timestamp_nanos_stampable t h = timestamp_nanos_exact t h.in_range ∙ as_u64_stampable t h

  -- Of two events of times from 1970 on whose nanoseconds fit an `i64`, the earlier one has the smaller
  -- key.
  pub generate_event_key_lt :
      (a b : EventEnvelope)
      → IsStampable a.timestamp
      → IsStampable b.timestamp
      → a.timestamp <ℤ b.timestamp
      → compare_bytes (generate_event_key c a) (generate_event_key c b) ≡ Ordering.lt
  unfolding generate_event_key
  generate_event_key_lt a b ha hb h = rw (timestamp_nanos_stampable a.timestamp ha) (
      rw (timestamp_nanos_stampable b.timestamp hb) (
        be_bytes_lt 8 _ _ _ _
          (omega (arith, neg_part_stampable a.timestamp ha, neg_part_stampable b.timestamp hb))
          (omega arith)))

  -- An event whose nanoseconds do not fit an `i64`, as after the year 2262, has a smaller key than every
  -- event after 1970 whose nanoseconds fit.
  pub generate_event_key_beyond :
      (a b : EventEnvelope)
      → in_i64 a.timestamp ≡ false
      → pos 0 <ℤ b.timestamp
      → InI64 b.timestamp
      → compare_bytes (generate_event_key c a) (generate_event_key c b) ≡ Ordering.lt
  unfolding generate_event_key
  generate_event_key_beyond a b beyond later fits =
      let hb : IsStampable b.timestamp = record { since_epoch = omega arith; in_range = fits } in
      rw (documented a.timestamp) (
        rw beyond (
          rw (timestamp_nanos_stampable b.timestamp hb)
            (be_bytes_lt 8 _ _ _ _ (omega arith) (omega arith))))

  -- An event before 1970 whose nanoseconds fit an `i64` has a greater key than every event from 1970 on
  -- whose nanoseconds fit.
  pub generate_event_key_before_epoch :
      (a b : EventEnvelope)
      → a.timestamp <ℤ pos 0
      → InI64 a.timestamp
      → IsStampable b.timestamp
      → compare_bytes (generate_event_key c b) (generate_event_key c a) ≡ Ordering.lt
  unfolding generate_event_key
  generate_event_key_before_epoch a b old ha hb = rw (timestamp_nanos_exact a.timestamp ha) (
      rw (timestamp_nanos_stampable b.timestamp hb)
        (be_bytes_lt 8 _ _ _ _ (as_u64_before_epoch _ _ old ha hb) (as_u64-lt a.timestamp)))

  -- A key stands before a time's prefix exactly when its event is earlier.
  pub is_below-generate_time_key_prefix :
      (a : EventEnvelope) (t : DateTime)
      → IsStampable a.timestamp
      → IsStampable t
      → is_below (generate_event_key c a) (generate_time_key_prefix c t) ≡ before a.timestamp t
  unfolding generate_event_key generate_time_key_prefix
  is_below-generate_time_key_prefix a t ha ht = rw (timestamp_nanos_stampable a.timestamp ha) (
      rw (timestamp_nanos_stampable t ht) (
        is_below_prefix 8 _ _ a.event_id.uuid.bytes (omega arith) (omega arith)
        ∙ ltb_stampable a.timestamp t ha ht))

  -- The key of an event from 1970 on stands before the prefix of every time before 1970.
  pub is_below_before_epoch :
      (a : EventEnvelope) (t : DateTime)
      → IsStampable a.timestamp
      → t <ℤ pos 0
      → InI64 t
      → is_below (generate_event_key c a) (generate_time_key_prefix c t) ≡ true
  unfolding generate_event_key generate_time_key_prefix
  is_below_before_epoch a t ha old fits = rw (timestamp_nanos_stampable a.timestamp ha) (
      rw (timestamp_nanos_exact t fits) (
        is_below_prefix 8 _ _ a.event_id.uuid.bytes (omega arith) (as_u64-lt t)
        ∙ ltb_of_lt _ _ (as_u64_before_epoch t a.timestamp old fits ha)))

  -- Events from 1970 on, whose nanoseconds fit an `i64`, share a key exactly when they share their time and their identifier.
  pub generate_event_key_inj :
      (a b : EventEnvelope)
      → IsStampable a.timestamp
      → IsStampable b.timestamp
      → (generate_event_key c a ≡ generate_event_key c b)
        ↔ ((a.timestamp ≡ b.timestamp) × (a.event_id ≡ b.event_id))
  unfolding generate_event_key
  generate_event_key_inj a b ha hb = rw (timestamp_nanos_stampable a.timestamp ha) (
      rw (timestamp_nanos_stampable b.timestamp hb) (
        λ e.
            let (times, ids) = be_bytes_append_inj 8 _ _ _ _ (omega arith) (omega arith) e in
            (
              eq_of_parts _ _ (
                  omega (
                    arith,
                    times,
                    neg_part_stampable a.timestamp ha,
                    neg_part_stampable b.timestamp hb,
                  )),
              ap event_id_of ids,
            ),
        λ e. cc (e.0, e.1),
      ))

  -- A key is 24 bytes long.
  pub length-generate_event_key :
      (a : EventEnvelope) → IsUuid a.event_id.uuid → length (generate_event_key c a) ≡ 24
  unfolding generate_event_key
  length-generate_event_key a h = omega (
    arith,
    h.0,
    length-append (be_bytes 8 (timestamp_nanos c a.timestamp)) a.event_id.uuid.bytes,
    length-be_bytes 8 (timestamp_nanos c a.timestamp),
  )
