-- ===== src/Inline/Serialization.antt =====
-- Byte streams: Include/WAVM/Inline/Serialization.h. An input stream is the list of the bytes
-- that are left; what is serialized to an output stream is the list of the bytes written.
pub mod Reads
use wavm.Prelude.{
  take, drop, leb, length, ℕ, zero, suc, ◌==◌, Option, some, none, Bool, true, false, List, [], ◌∷◌,
  ◌++◌, if◌then◌else◌,
}

pub data FatalSerializationException : Type 0 where
  expected_data out_of_range unused_bits unused_sign_bits : FatalSerializationException
  constant_mismatch : FatalSerializationException
  invalid_value_type invalid_value_type_encoding : FatalSerializationException
  invalid_reference_type_encoding invalid_utf8 : FatalSerializationException
  unknown_table_type_flag unknown_memory_type_flag : FatalSerializationException
  unknown_calling_convention unknown_function_type_tag : FatalSerializationException
  invalid_initializer_opcode invalid_elem_opcode invalid_elem_segment_flags
        invalid_data_segment_flags :
      FatalSerializationException
  too_many_data_segments mismatched_segment_counts : FatalSerializationException
  invalid_import_function_type_index : FatalSerializationException
  section_contained_more_data invalid_function_type_index : FatalSerializationException

-- What a deserializer returns: the value, and the bytes after it.
pub data Read {ℓ} (A : Type ℓ) : Type ℓ where
  ok : A → List ℕ → Read A
  fatal : FatalSerializationException → Read A

abbrev pub Reader : Type 0 → Type 0
Reader A = List ℕ → Read A

infixl 5 ◌>>=◌
abbrev pub ◌>>=◌ : {A B : Type 0} → Reader A → (A → Reader B) → Reader B
◌>>=◌ m f s = elim (m s) [ ok a rest ↦ f a rest | fatal e ↦ fatal e ]

abbrev pub pure : {A : Type 0} → A → Reader A
pure a s = ok a s

abbrev pub throw : {A : Type 0} → FatalSerializationException → Reader A
throw e s = fatal e

-- What a serializer returns: the bytes that it writes, an exception, or that it reached
-- WAVM_UNREACHABLE; `unfinished` is a loop that needs more rounds than the model gives it.
pub data Written : Type 0 where
  bytes : List ℕ → Written
  failed : FatalSerializationException → Written
  unreachable unfinished : Written

infixr 60 ◌<>◌
abbrev pub ◌<>◌ : Written → Written → Written
bytes a <> bytes b = bytes (a ++ b)
bytes a <> failed e = failed e
bytes a <> unreachable = unreachable
bytes a <> unfinished = unfinished
failed e <> w = failed e
unreachable <> w = unreachable
unfinished <> w = unfinished

-- `advance(1)` of a `MemoryInputStream`
unfoldable pub next_byte : Reader ℕ
next_byte [] = fatal FatalSerializationException.expected_data
next_byte (b ∷ rest) = ok b rest

-- `advance(n)`, which gives the bytes that it passes.
unfoldable pub advance : ℕ → Reader (List ℕ)
advance n s =
    if leb n (length s)
    then ok (take n s) (drop n s)
    else fatal FatalSerializationException.expected_data

-- `serializeConstant` of a byte
unfoldable pub read_constant : ℕ → Reader (Unit {0})
unfolding next_byte
read_constant constant = next_byte >>= λ b.
    if b == constant then pure tt else throw FatalSerializationException.constant_mismatch

-- The loop of `serializeArray` that reads `size` elements.
unfoldable pub read_elements : {A : Type 0} → Reader A → ℕ → Reader (List A)
read_elements read zero = pure []
read_elements read (suc size) =
    let others = read_elements read size in read >>= λ a. others >>= λ rest. pure (a ∷ rest)

unfoldable pub write_elements : {A : Type 0} → (A → Written) → List A → Written
write_elements write [] = bytes []
write_elements write (a ∷ elements) = write a <> write_elements write elements
