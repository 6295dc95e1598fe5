-- ===== src/Store/Suite/Samples.antt =====
-- `test_serialization_roundtrip` and `test_compression_serialization` of
-- crates/ledgerfs-event-store/src/serialization.rs.
use text.Mathlib.Text.{◌==◌ as str_eq}
use text.Mathlib.TextEquality.{eq_iff}
use ledgerfs.Prelude.{
  ℕ, zero, suc, ◌+◌, ◌/◌, ◌%◌, ◌≡◌, refl, String, Bool, true, false, ◌&&◌, List, [], ◌∷◌, ok, arith,
  ltb, ◌==◌, if◌then◌else◌,
}
use ledgerfs.Prelude.Int.{pos}
use ledgerfs.Prelude.Bytes.{Bytes, bytes_eq_refl}
use ledgerfs.Core.Types.{usd, customer, event_id_eq}
use ledgerfs.Core.Amount.{new}
use ledgerfs.Core.Events.{EventEnvelope, account_created, new_envelope, default_metadata}
use ledgerfs.Store.Codec.{Codec, IsCodec, serialize, deserialize, deserialize-serialize}
use ledgerfs.Store.Open.{new_serializer}
use ledgerfs.Store.Suite.{Drawn, unwrapped}

-- The envelope of both tests, with its tags.
abbrev tagged_event : List (String × String) → Drawn → EventEnvelope
tagged_event tags d =
    new_envelope d.event_id d.now d.account_text 1
      (account_created (record {
        account_id = d.account_id;
        account_type = customer;
        currency = usd;
        initial_balance = new (pos 1000);
        metadata = record {
          account_type = customer;
          currency = usd;
          tags = tags;
          regulatory_flags = "PSD2_COMPLIANT" ∷ [];
        };
        created_at = d.created_at;
      }))
      default_metadata

abbrev str_append : String → String → String
str_append String.[] t = t
str_append (String.◌∷◌ c s) t = String.◌∷◌ c (str_append s t)

abbrev pick : List String → ℕ → String
pick [] n = ""
pick (s ∷ ss) zero = s
pick (s ∷ ss) (suc n) = pick ss n

abbrev digit : ℕ → String
digit n = pick ("0" ∷ "1" ∷ "2" ∷ "3" ∷ "4" ∷ "5" ∷ "6" ∷ "7" ∷ "8" ∷ "9" ∷ []) n

-- `{}` of a number below 100.
abbrev two_digits : ℕ → String
two_digits i = if ltb i 10 then digit i else str_append (digit (i / 10)) (digit (i % 10))

-- The tags that k rounds of the loop insert from the i-th on, in the order of the rounds.
unfoldable pub tags_from : ℕ → ℕ → List (String × String)
tags_from zero i = []
tags_from (suc k) i =
    (str_append "key_" (two_digits i), str_append "value_" (two_digits i)) ∷ tags_from k (i + 1)

module _ (c : Codec) where
  test_serialization_roundtrip : Drawn → Bool
  test_serialization_roundtrip d =
      let envelope = tagged_event [] d in
      unwrapped (serialize c (new_serializer false) envelope) (λ serialized.
        unwrapped (deserialize c (new_serializer false) serialized) (λ deserialized.
          event_id_eq envelope.event_id deserialized.event_id
          && (str_eq envelope.aggregate_id deserialized.aggregate_id
              && (envelope.aggregate_version == deserialized.aggregate_version))))

  test_compression_serialization : Drawn → Bool
  test_compression_serialization d =
      let envelope = tagged_event (tags_from 100 0) d in
      unwrapped (serialize c (new_serializer true) envelope) (λ serialized.
        unwrapped (deserialize c (new_serializer true) serialized)
          (λ deserialized. event_id_eq envelope.event_id deserialized.event_id))

module _ (c : Codec) (documented : IsCodec c) where
  test_serialization_roundtrip_passes :
      (d : Drawn) (bytes : Bytes)
      → serialize c (new_serializer false) (tagged_event [] d) ≡ ok bytes
      → test_serialization_roundtrip c d ≡ true
  unfolding test_serialization_roundtrip
  test_serialization_roundtrip_passes d bytes h =
      let e = tagged_event [] d in
      let same = bytes_eq_refl e.event_id.uuid.bytes in
      let aggregate = (eq_iff e.aggregate_id e.aggregate_id).1 refl in
      rw h (
        rw (deserialize-serialize c documented (new_serializer false) e bytes h)
          (rw same (rw aggregate (ground arith))))

  test_compression_serialization_passes :
      (d : Drawn) (bytes : Bytes)
      → serialize c (new_serializer true) (tagged_event (tags_from 100 0) d) ≡ ok bytes
      → test_compression_serialization c d ≡ true
  unfolding test_compression_serialization
  test_compression_serialization_passes d bytes h =
      let e = tagged_event (tags_from 100 0) d in
      rw h (
        rw (deserialize-serialize c documented (new_serializer true) e bytes h)
          (bytes_eq_refl e.event_id.uuid.bytes))
