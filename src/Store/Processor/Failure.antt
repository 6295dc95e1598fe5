-- ===== src/Store/Processor/Failure.antt =====
-- The text of an error, which `flush_batch` of crates/ledgerfs-event-store/src/batch.rs searches for
-- "already exists".
use ledgerfs.Prelude.{
  ℕ, ◌+◌, ◌/◌, ◌%◌, ◌≡◌, Bool, true, ◌||◌, [], ◌∷◌, ◌++◌, arith, ltb, if◌then◌else◌,
}
use ledgerfs.Prelude.Bytes.{Bytes, codes}
use ledgerfs.Prelude.Text.{starts_with, starts_with-append}
use ledgerfs.Store.Codec.{
  SerializationError, serialization_failed, compression_failed, decompression_failed,
  invalid_format_version,
}
use ledgerfs.Store.Platform.{Platform}
use ledgerfs.Store.EventStore.{
  EventStoreError, database_error, serialization_error, event_not_found, invalid_query,
  concurrency_error, already_exists,
}

-- The digits of a `u8`.
abbrev pub decimal : ℕ → Bytes
decimal n =
    if ltb n 10
    then (n + 48) ∷ []
    else if ltb n 100
    then (n / 10 + 48) ∷ (n % 10 + 48) ∷ []
    else (n / 100 + 48) ∷ (n / 10 % 10 + 48) ∷ (n % 10 + 48) ∷ []

abbrev pub serialization_text : SerializationError → Bytes
serialization_text (serialization_failed s) = codes "Serialization failed: " ++ codes s
serialization_text (compression_failed s) = codes "Compression failed: " ++ codes s
serialization_text (decompression_failed s) = codes "Decompression failed: " ++ codes s
serialization_text (invalid_format_version expected actual) =
    codes "Invalid format version: expected "
    ++ (decimal expected ++ (codes ", got " ++ decimal actual))

-- `to_string`, from the `#[error]` attributes.
pub to_string : {Db Error : Type 0} → Platform Db Error → EventStoreError Error → Bytes
to_string p (database_error e) = codes "Database error: " ++ p.error_text e
to_string p (serialization_error e) = codes "Serialization error: " ++ serialization_text e
to_string p (event_not_found s) = codes "Event not found: " ++ codes s
to_string p (invalid_query s) = codes "Invalid query parameters: " ++ codes s
to_string p (concurrency_error s) = codes "Concurrency error: " ++ s

-- `str::contains`.
pub contains_text : Bytes → Bytes → Bool
contains_text [] t = starts_with [] t
contains_text (c ∷ s) t = starts_with (c ∷ s) t || contains_text s t

abbrev pub is_violation : {Db Error : Type 0} → Platform Db Error → EventStoreError Error → Bool
is_violation p e = contains_text (to_string p e) (codes "already exists")

contains_text-append : (a s t : Bytes) → contains_text s t ≡ true → contains_text (a ++ s) t ≡ true
unfolding contains_text
contains_text-append [] s t h = h
contains_text-append (c ∷ a) s t h = ground (arith, contains_text-append a s t h)

contains_text_here : (c : ℕ) (s r : Bytes) → contains_text ((c ∷ s) ++ r) (c ∷ s) ≡ true
unfolding contains_text
contains_text_here c s r = ground (arith, starts_with-append (c ∷ s) r)

-- The refusal of an existing key is counted as a violation.
pub already_exists-is_violation :
    {Db Error : Type 0} (p : Platform Db Error) (key : Bytes)
    → is_violation p (already_exists p key) ≡ true
unfolding to_string
already_exists-is_violation p key =
    let rest = codes ". Append-only store prevents overwrites." in
    let found = contains_text_here b'a' (codes "lready exists") rest in
    let spaced =
      contains_text-append (b' ' ∷ []) (codes "already exists" ++ rest) (codes "already exists")
        found in
    contains_text-append (codes "Concurrency error: Event with key ")
      (p.debug_lossy key ++ (b' ' ∷ (codes "already exists" ++ rest))) (codes "already exists")
      (contains_text-append (p.debug_lossy key) (b' ' ∷ (codes "already exists" ++ rest))
        (codes "already exists") spaced)
