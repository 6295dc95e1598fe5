-- ===== src/Store/Tests/Codec.antt =====
-- A stored event, read back.
use ledgerfs.Prelude.{◌≡◌, refl, ok, true, ◌∷◌, []}
use ledgerfs.Store.Codec.{serialize, deserialize, EventSerializer, deserialize-serialize}
use ledgerfs.Store.Tests.Memory.{memory, memory-IsPlatform, first, first_written}

abbrev compressing : EventSerializer
compressing = record { use_compression = true }

first_serialized : serialize memory.codec compressing first ≡ ok (1 ∷ [])
unfolding serialize
first_serialized = rw first_written refl

deserialize-serialize_example : deserialize memory.codec compressing (1 ∷ []) ≡ ok first
deserialize-serialize_example =
    deserialize-serialize memory.codec memory-IsPlatform.is_codec compressing first (1 ∷ [])
      first_serialized
