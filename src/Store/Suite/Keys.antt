-- ===== src/Store/Suite/Keys.antt =====
-- `test_key_generation` of crates/ledgerfs-event-store/src/serialization.rs.
use native.Mathlib.Nat.{pow-suc, div-add-mod, mod-lt}
use ledgerfs.Prelude.{
  ℕ, zero, suc, ◌+◌, ◌*◌, ◌/◌, ◌%◌, ◌^◌, ◌<◌, ◌≡◌, refl, ◌∙◌, Bool, true, ◌&&◌, [], ◌∷◌, ◌++◌,
  arith, length, length-append, length-take, take, drop, ltb, ◌==◌,
}
use ledgerfs.Prelude.Int.{pos, ◌<ℤ◌, pos_part}
use ledgerfs.Prelude.Bytes.{Bytes}
use ledgerfs.Core.Types.{IsUuid}
use ledgerfs.Core.Events.{new_envelope}
use ledgerfs.Store.Keys.{Chrono, IsChrono, be_bytes, generate_event_key}
use ledgerfs.Store.Keys.Digits.{length-be_bytes, pow_pos}
use ledgerfs.Store.Keys.Order.{IsStampable, timestamp_nanos_stampable}
use ledgerfs.Store.Suite.{Drawn, create_event, create_test_event}

-- `u64::from_be_bytes`, after the bytes that stand for n.
from_be_bytes : ℕ → Bytes → ℕ
from_be_bytes n [] = n
from_be_bytes n (b ∷ bs) = from_be_bytes (n * 256 + b) bs

test_key_generation : Chrono → Drawn → Bool
test_key_generation c d =
    let key = generate_event_key c (create_test_event d) in
    length key == 24
    && (ltb 0 (from_be_bytes 0 (take 8 key)) && (length (take 16 (drop 8 key)) == 16))

from_be_bytes-be_bytes :
    (k a n : ℕ) → n < 256 ^ k → from_be_bytes a (be_bytes k n) ≡ a * 256 ^ k + n
unfolding from_be_bytes be_bytes
from_be_bytes-be_bytes zero a n h = omega (arith, h)
from_be_bytes-be_bytes (suc k) a n h =
    let m = 256 ^ k in
    rw (from_be_bytes-be_bytes k (a * 256 + n / m) (n % m) (mod-lt n (pow_pos k)))
      (rw pow-suc (omega (arith, div-add-mod n m)))

take_eight : (t : ℕ) (u : Bytes) → take 8 (be_bytes 8 t ++ u) ≡ be_bytes 8 t
unfolding be_bytes
take_eight t u = refl

drop_eight : (t : ℕ) (u : Bytes) → drop 8 (be_bytes 8 t ++ u) ≡ u
unfolding be_bytes
drop_eight t u = refl

-- The assertions on a key of the number t and the bytes of an identifier.
key_checked :
    (t : ℕ) (u : Bytes)
    → 0 < t
    → t < 256 ^ 8
    → length u ≡ 16
    → (length (be_bytes 8 t ++ u) == 24
        && (ltb 0 (from_be_bytes 0 (take 8 (be_bytes 8 t ++ u)))
            && (length (take 16 (drop 8 (be_bytes 8 t ++ u))) == 16)))
      ≡ true
key_checked t u after below sixteen =
    let whole : length (be_bytes 8 t ++ u) ≡ 24 =
      length-append (be_bytes 8 t) u ∙ omega (arith, length-be_bytes 8 t, sixteen) in
    let last : length (take 16 u) ≡ 16 = length-take 16 u ∙ rw sixteen refl in
    rw whole (
      rw (take_eight t u) (
        rw (from_be_bytes-be_bytes 8 0 t below)
          (rw (drop_eight t u) (rw last (ground (arith, after))))))

-- It passes where the time of the envelope is after 1970, as far as an `i64` reaches.
test_key_generation_passes :
    (c : Chrono) (d : Drawn)
    → IsChrono c
    → IsUuid d.event_id.uuid
    → IsStampable d.now
    → pos 0 <ℤ d.now
    → test_key_generation c d ≡ true
unfolding test_key_generation generate_event_key create_event new_envelope
test_key_generation_passes c d documented uuid stampable later =
    rw (timestamp_nanos_stampable c documented d.now stampable)
      (key_checked (pos_part d.now) d.event_id.uuid.bytes (omega arith) (omega arith) uuid.0)
