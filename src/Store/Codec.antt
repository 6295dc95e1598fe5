-- ===== src/Store/Codec.antt =====
-- `EventSerializer` of crates/ledgerfs-event-store/src/serialization.rs.
use ledgerfs.Prelude.{ℕ, ◌≡◌, Bool, Result, ok, ◌>>=◌, map_err, String, if◌then◌else◌, arith}
use ledgerfs.Prelude.Bytes.{Bytes}
use ledgerfs.Core.Events.{EventEnvelope}

pub data SerializationError : Type 0 where
  serialization_failed compression_failed decompression_failed : String → SerializationError
  invalid_format_version : ℕ → ℕ → SerializationError

-- What is used of the `bincode` and `lz4_flex` crates; an error is its text.
pub record Codec : Type 0 where
  pub bincode_serialize : EventEnvelope → Result String Bytes
  pub bincode_deserialize : Bytes → Result String EventEnvelope
  pub lz4_compress : Bytes → Result String Bytes
  pub lz4_decompress : Bytes → Result String Bytes

-- Both crates read back what they wrote.
pub record IsCodec (c : Codec) : Type 0 where
  pub bincode_inverse :
      (e : EventEnvelope) (b : Bytes)
      → c.bincode_serialize e ≡ ok b
      → c.bincode_deserialize b ≡ ok e
  pub lz4_inverse : (d b : Bytes) → c.lz4_compress d ≡ ok b → c.lz4_decompress b ≡ ok d

pub record EventSerializer : Type 0 where
  pub use_compression : Bool

module _ (c : Codec) where
  -- `write_all` and `finish` of the frame encoder are one call here.
  abbrev compress : Bytes → Result SerializationError Bytes
  compress bytes = map_err compression_failed (c.lz4_compress bytes)

  abbrev decompress : Bytes → Result SerializationError Bytes
  decompress bytes = map_err decompression_failed (c.lz4_decompress bytes)

  unfoldable pub serialize : EventSerializer → EventEnvelope → Result SerializationError Bytes
  serialize self envelope = do
    envelope_bytes ← map_err serialization_failed (c.bincode_serialize envelope)
    if self.use_compression then compress envelope_bytes else ok envelope_bytes

  unfoldable pub deserialize : EventSerializer → Bytes → Result SerializationError EventEnvelope
  deserialize self bytes = do
    envelope_bytes ← if self.use_compression then decompress bytes else ok bytes
    map_err serialization_failed (c.bincode_deserialize envelope_bytes)

  -- Whether it compresses or not, a serializer reads back every envelope that it wrote.
  pub deserialize-serialize :
      (documented : IsCodec c) (self : EventSerializer) (envelope : EventEnvelope) (bytes : Bytes)
      → serialize self envelope ≡ ok bytes
      → deserialize self bytes ≡ ok envelope
  unfolding serialize deserialize
  deserialize-serialize documented self envelope bytes h =
      grind (arith, documented.bincode_inverse, documented.lz4_inverse)
