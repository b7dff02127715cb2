-- ===== src/Wasm/Initializers.antt =====
-- The binary format of opcodes, initializer expressions and the definitions of globals:
-- Lib/WASM/WASMSerialization.cpp. An opcode is its number.
pub mod RoundTrip
use wavm.Prelude.{
  ℕ, zero, suc, ◌+◌, ◌-◌, ◌*◌, ◌/◌, ◌%◌, ◌^◌, max, Bool, true, false, List, [], ◌∷◌, leb, ◌==◌,
  if◌then◌else◌, ℤ, pos, negsuc, to_signed,
}
use wavm.Ir.Types.{ReferenceType, GlobalType}
use wavm.Ir.Module.{InitializerExpression, GlobalDef}
use wavm.Inline.Serialization.{
  FatalSerializationException, Reader, ◌>>=◌, pure, throw, Written, bytes, failed, ◌<>◌, next_byte,
  advance, read_constant,
}
use wavm.Inline.Leb128.{read_var_int}
use wavm.Inline.Leb128.Formats.{
  var_uint32, var_uint32_of_u32, var_int32, var_int64, write_int, write_uint, read_uint,
}
use wavm.Wasm.Types.{write_reference_type, read_reference_type, write_global_type, read_global_type}

abbrev pub max_single_byte_opcode : ℕ
max_single_byte_opcode = 223

-- `a | b`, of as many bits.
unfoldable pub bit_or : ℕ → ℕ → ℕ → ℕ
bit_or zero a b = 0
bit_or (suc bits) a b = max (a % 2) (b % 2) + 2 * bit_or bits (a / 2) (b / 2)

abbrev pub write_opcode : ℕ → Written
write_opcode opcode =
    if leb opcode max_single_byte_opcode
    then bytes (opcode ∷ [])
    else bytes (opcode / 256 ∷ []) <> write_uint var_uint32_of_u32 (opcode % 256)

-- `Opcode` has 16 bits.
abbrev pub read_opcode : Reader ℕ
read_opcode = next_byte >>= λ opcode.
    if leb opcode max_single_byte_opcode
    then pure opcode
    else read_uint var_uint32_of_u32 >>= λ low. pure (bit_or 32 (opcode * 256) low % 2 ^ 16)

-- `serializeNativeValue`, on a little-endian host.
unfoldable pub native_bytes : ℕ → ℕ → List ℕ
native_bytes zero value = []
native_bytes (suc size) value = value % 256 ∷ native_bytes size (value / 256)

unfoldable pub native_value : List ℕ → ℕ
native_value [] = 0
native_value (b ∷ others) = b + 256 * native_value others

abbrev pub write_native : ℕ → ℕ → Written
write_native size value = bytes (native_bytes size value)

abbrev pub read_native : ℕ → Reader ℕ
read_native size = advance size >>= λ value. pure (native_value value)

-- The bit pattern of a signed integer.
abbrev pub pattern_of : ℕ → ℤ → ℕ
pattern_of width (pos n) = n
pattern_of width (negsuc n) = 2 ^ width - 1 - n

abbrev pub end_opcode : ℕ
end_opcode = 11

abbrev pub write_initializer : InitializerExpression → Written
write_initializer (InitializerExpression.i32_const i32) =
    write_opcode 65 <> write_int var_int32 (to_signed 32 i32) <> bytes (end_opcode ∷ [])
write_initializer (InitializerExpression.i64_const i64) =
    write_opcode 66 <> write_int var_int64 (to_signed 64 i64) <> bytes (end_opcode ∷ [])
write_initializer (InitializerExpression.f32_const f32) =
    write_opcode 67 <> write_native 4 f32 <> bytes (end_opcode ∷ [])
write_initializer (InitializerExpression.f64_const f64) =
    write_opcode 68 <> write_native 8 f64 <> bytes (end_opcode ∷ [])
write_initializer (InitializerExpression.v128_const v128) =
    write_opcode 64780 <> write_native 16 v128 <> bytes (end_opcode ∷ [])
write_initializer (InitializerExpression.global_get ref) =
    write_opcode 35 <> write_uint var_uint32 ref <> bytes (end_opcode ∷ [])
write_initializer (InitializerExpression.ref_null type) =
    write_opcode 208 <> write_reference_type type <> bytes (end_opcode ∷ [])
write_initializer (InitializerExpression.ref_func ref) =
    write_opcode 210 <> write_uint var_uint32 ref <> bytes (end_opcode ∷ [])
write_initializer InitializerExpression.invalid =
    failed FatalSerializationException.invalid_initializer_opcode

abbrev pub decode_initializer : ℕ → Reader InitializerExpression
decode_initializer opcode =
    if opcode == 65
    then (read_var_int var_int32 >>= λ value.
        pure (InitializerExpression.i32_const (pattern_of 32 value)))
    else (if opcode == 66
        then (read_var_int var_int64 >>= λ value.
            pure (InitializerExpression.i64_const (pattern_of 64 value)))
        else (if opcode == 67
            then (read_native 4 >>= λ value. pure (InitializerExpression.f32_const value))
            else (if opcode == 68
                then (read_native 8 >>= λ value. pure (InitializerExpression.f64_const value))
                else (if opcode == 64780
                    then (read_native 16 >>= λ value. pure (InitializerExpression.v128_const value))
                    else (if opcode == 35
                        then (read_uint var_uint32 >>= λ ref.
                            pure (InitializerExpression.global_get ref))
                        else (if opcode == 208
                            then (read_reference_type >>= λ type.
                                pure (InitializerExpression.ref_null type))
                            else (if opcode == 210
                                then (read_uint var_uint32 >>= λ ref.
                                    pure (InitializerExpression.ref_func ref))
                                else throw
                                    FatalSerializationException.invalid_initializer_opcode)))))))

abbrev pub read_initializer : Reader InitializerExpression
read_initializer = read_opcode >>= λ opcode.
    decode_initializer opcode >>= λ initializer. read_constant end_opcode >>= λ _. pure initializer

abbrev pub write_global_def : GlobalDef → Written
write_global_def def = write_global_type def.type <> write_initializer def.initializer

abbrev pub read_global_def : Reader GlobalDef
read_global_def = read_global_type >>= λ type.
    read_initializer >>= λ initializer. pure (record { type = type; initializer = initializer })
