-- ===== src/Wasm/Types.antt =====
-- The binary format of types, but those of functions: Lib/WASM/WASMSerialization.cpp.
pub mod RoundTrip
use wavm.Prelude.{
  ℕ, ◌+◌, ◌*◌, ◌/◌, ◌%◌, Bool, true, false, not, List, [], ◌∷◌, length, ◌==◌, Option, some, none,
  if◌then◌else◌, ℤ, pos, negsuc,
}
use wavm.Ir.Types.{
  ValueType, ReferenceType, TypeTuple, CallingConvention, FunctionType, IndexType, SizeConstraints,
  TableType, MemoryType, GlobalType, ExceptionType, ExternKind, u64_max,
}
use wavm.Inline.Serialization.{
  FatalSerializationException, Read, Reader, ok, fatal, ◌>>=◌, pure, throw, Written, bytes, failed,
  unreachable, ◌<>◌, next_byte, advance,
}
use wavm.Inline.Leb128.{read_var_int}
use wavm.Inline.Leb128.Formats.{
  var_int7, var_uint1, var_uint7, var_uint32, var_uint32_of_u32, var_uint64, write_int, write_uint,
  read_uint, write_array, read_array,
}

abbrev pub decode_value_type : ℤ → Reader ValueType
decode_value_type (pos n) = throw FatalSerializationException.invalid_value_type_encoding
decode_value_type (negsuc n) =
    if n == 0
    then pure ValueType.i32
    else (if n == 1
        then pure ValueType.i64
        else (if n == 2
            then pure ValueType.f32
            else (if n == 3
                then pure ValueType.f64
                else (if n == 4
                    then pure ValueType.v128
                    else (if n == 15
                        then pure ValueType.funcref
                        else (if n == 16
                            then pure ValueType.externref
                            else throw FatalSerializationException.invalid_value_type_encoding))))))

-- `none` is the exception for a type that has no encoding.
abbrev pub encode_value_type : ValueType → Option ℤ
encode_value_type ValueType.i32 = some (negsuc 0)
encode_value_type ValueType.i64 = some (negsuc 1)
encode_value_type ValueType.f32 = some (negsuc 2)
encode_value_type ValueType.f64 = some (negsuc 3)
encode_value_type ValueType.v128 = some (negsuc 4)
encode_value_type ValueType.funcref = some (negsuc 15)
encode_value_type ValueType.externref = some (negsuc 16)
encode_value_type ValueType.none = none
encode_value_type ValueType.any = none

abbrev pub write_value_type : ValueType → Written
write_value_type type = elim (encode_value_type type) [
  | some encoded_value_type ↦ write_int var_int7 encoded_value_type
  | none ↦ failed FatalSerializationException.invalid_value_type
]

abbrev pub read_value_type : Reader ValueType
read_value_type = read_var_int var_int7 >>= decode_value_type

abbrev pub write_type_tuple : TypeTuple → Written
write_type_tuple type_tuple = write_array write_value_type type_tuple

abbrev pub read_type_tuple : Reader TypeTuple
read_type_tuple = read_array read_value_type

abbrev pub write_index : IndexType → ℕ → Written
write_index IndexType.i32 size = write_uint var_uint32 size
write_index IndexType.i64 size = write_uint var_uint64 size

abbrev pub read_index : IndexType → Reader ℕ
read_index IndexType.i32 = read_uint var_uint32
read_index IndexType.i64 = read_uint var_uint64

abbrev pub write_size_constraints : Bool → IndexType → SizeConstraints → Written
write_size_constraints true size_type size =
    write_index size_type size.min <> write_index size_type size.max
write_size_constraints false size_type size = write_index size_type size.min

abbrev pub read_size_constraints : Bool → IndexType → Reader SizeConstraints
read_size_constraints true size_type = read_index size_type >>= λ min.
    read_index size_type >>= λ max. pure (record { min = min; max = max })
read_size_constraints false size_type =
    read_index size_type >>= λ min. pure (record { min = min; max = u64_max })

abbrev pub decode_reference_type : ℕ → Reader ReferenceType
decode_reference_type encoded =
    if encoded == 112
    then pure ReferenceType.funcref
    else (if encoded == 111
        then pure ReferenceType.externref
        else throw FatalSerializationException.invalid_reference_type_encoding)

abbrev pub write_reference_type : ReferenceType → Written
write_reference_type ReferenceType.funcref = bytes (112 ∷ [])
write_reference_type ReferenceType.externref = bytes (111 ∷ [])
write_reference_type ReferenceType.none = unreachable

abbrev pub read_reference_type : Reader ReferenceType
read_reference_type = next_byte >>= decode_reference_type

abbrev pub has_max : SizeConstraints → Bool
has_max size = not (size.max == u64_max)

abbrev pub is_i64 : IndexType → Bool
is_i64 IndexType.i32 = false
is_i64 IndexType.i64 = true

abbrev pub flag : Bool → ℕ → ℕ
flag true bit = bit
flag false bit = 0

-- The flags of a table or a memory.
abbrev pub type_flags : SizeConstraints → Bool → IndexType → ℕ
type_flags size is_shared index_type =
    flag (has_max size) 1 + flag is_shared 2 + flag (is_i64 index_type) 4

abbrev pub flags_max : ℕ → Bool
flags_max flags = flags % 2 == 1

abbrev pub flags_shared : ℕ → Bool
flags_shared flags = flags / 2 % 2 == 1

abbrev pub flags_index_type : ℕ → IndexType
flags_index_type flags = if flags / 4 % 2 == 1 then IndexType.i64 else IndexType.i32

abbrev pub check_flags : FatalSerializationException → ℕ → Reader ℕ
check_flags unknown flags = if flags / 8 == 0 then pure flags else throw unknown

abbrev pub write_table_type : TableType → Written
write_table_type type =
    write_reference_type type.element_type
    <> write_uint var_uint7 (type_flags type.size type.is_shared type.index_type)
    <> write_size_constraints (has_max type.size) type.index_type type.size

abbrev pub table_type_of : ReferenceType → ℕ → SizeConstraints → TableType
table_type_of element_type flags size = record {
  element_type = element_type;
  is_shared = flags_shared flags;
  index_type = flags_index_type flags;
  size = size;
}

abbrev pub read_table_type : Reader TableType
read_table_type = read_reference_type >>= λ element_type.
    (read_uint var_uint7 >>= check_flags FatalSerializationException.unknown_table_type_flag)
    >>= λ flags. read_size_constraints (flags_max flags) (flags_index_type flags) >>= λ size.
        pure (table_type_of element_type flags size)

abbrev pub write_memory_type : MemoryType → Written
write_memory_type type =
    write_uint var_uint7 (type_flags type.size type.is_shared type.index_type)
    <> write_size_constraints (has_max type.size) type.index_type type.size

abbrev pub memory_type_of : ℕ → SizeConstraints → MemoryType
memory_type_of flags size = record {
  is_shared = flags_shared flags;
  index_type = flags_index_type flags;
  size = size;
}

abbrev pub read_memory_type : Reader MemoryType
read_memory_type =
    (read_uint var_uint7 >>= check_flags FatalSerializationException.unknown_memory_type_flag)
    >>= λ flags. read_size_constraints (flags_max flags) (flags_index_type flags) >>= λ size.
        pure (memory_type_of flags size)

abbrev pub write_global_type : GlobalType → Written
write_global_type type =
    write_value_type type.value_type <> write_uint var_uint1 (flag type.is_mutable 1)

abbrev pub read_global_type : Reader GlobalType
read_global_type = read_value_type >>= λ value_type. read_uint var_uint1 >>= λ is_mutable.
    pure (record { value_type = value_type; is_mutable = not (is_mutable == 0) })

abbrev pub write_exception_type : ExceptionType → Written
write_exception_type type = write_type_tuple type.params

abbrev pub read_exception_type : Reader ExceptionType
read_exception_type = read_type_tuple >>= λ params. pure (record { params = params })
