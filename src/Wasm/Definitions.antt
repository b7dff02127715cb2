-- ===== src/Wasm/Definitions.antt =====
-- The binary format of names, exports and function types: Lib/WASM/WASMSerialization.cpp, and
-- the format of strings of Include/WAVM/Inline/Serialization.h.
pub mod RoundTrip
use wavm.Prelude.{ℕ, Bool, true, false, List, [], ◌∷◌, length, ◌==◌, if◌then◌else◌}
use wavm.Ir.Types.{TypeTuple, CallingConvention, FunctionType, ExternKind}
use wavm.Ir.Module.{Name, Export}
use wavm.Inline.Unicode.{Transcoding, validate_utf8_string, stopped}
use wavm.Inline.Serialization.{
  FatalSerializationException, Reader, ◌>>=◌, pure, throw, Written, bytes, failed, unreachable,
  ◌<>◌, next_byte, advance,
}
use wavm.Inline.Leb128.Formats.{var_uint7, var_uint32, var_uint32_of_u32, write_uint, read_uint}
use wavm.Wasm.Types.{write_type_tuple, read_type_tuple}

-- That the whole string was taken.
abbrev pub at_end : Transcoding → Bool
at_end (stopped out []) = true
at_end (stopped out (c ∷ rest)) = false
at_end other = false

abbrev pub is_valid_utf8 : Name → Bool
is_valid_utf8 string = at_end (validate_utf8_string string)

-- throwIfNotValidUTF8, before what follows it.
abbrev pub write_if_valid_utf8 : Name → Written
write_if_valid_utf8 string =
    if is_valid_utf8 string then bytes [] else failed FatalSerializationException.invalid_utf8

abbrev pub read_if_valid_utf8 : Name → Reader Name
read_if_valid_utf8 string =
    if is_valid_utf8 string then pure string else throw FatalSerializationException.invalid_utf8

-- serialize of a string
abbrev pub write_string : Name → Written
write_string string = write_uint var_uint32 (length string) <> bytes string

abbrev pub read_string : Reader Name
read_string = read_uint var_uint32 >>= advance

abbrev pub decode_kind : ℕ → Reader ExternKind
decode_kind encoded =
    if encoded == 0
    then pure ExternKind.function
    else (if encoded == 1
        then pure ExternKind.table
        else (if encoded == 2
            then pure ExternKind.memory
            else (if encoded == 3
                then pure ExternKind.global
                else (if encoded == 127
                    then pure ExternKind.exception_type
                    else throw FatalSerializationException.invalid_reference_type_encoding))))

abbrev pub write_kind : ExternKind → Written
write_kind ExternKind.function = write_uint var_uint7 0
write_kind ExternKind.table = write_uint var_uint7 1
write_kind ExternKind.memory = write_uint var_uint7 2
write_kind ExternKind.global = write_uint var_uint7 3
write_kind ExternKind.exception_type = write_uint var_uint7 127
write_kind ExternKind.invalid = unreachable

abbrev pub read_kind : Reader ExternKind
read_kind = read_uint var_uint7 >>= decode_kind

abbrev pub write_export : Export → Written
write_export e =
    write_string e.name
    <> write_if_valid_utf8 e.name
    <> write_kind e.kind
    <> write_uint var_uint32 e.index

abbrev pub read_export : Reader Export
read_export = read_string >>= λ string. read_if_valid_utf8 string >>= λ name. read_kind >>= λ kind.
    read_uint var_uint32 >>= λ index. pure (record { name = name; kind = kind; index = index })

abbrev pub decode_calling_convention : ℕ → Reader CallingConvention
decode_calling_convention encoding =
    if encoding == 0
    then pure CallingConvention.wasm
    else (if encoding == 1
        then pure CallingConvention.intrinsic
        else (if encoding == 2
            then pure CallingConvention.intrinsic_with_context_switch
            else (if encoding == 3
                then pure CallingConvention.c
                else (if encoding == 4
                    then pure CallingConvention.c_api_callback
                    else throw FatalSerializationException.unknown_calling_convention))))

abbrev pub encode_calling_convention : CallingConvention → ℕ
encode_calling_convention CallingConvention.wasm = 0
encode_calling_convention CallingConvention.intrinsic = 1
encode_calling_convention CallingConvention.intrinsic_with_context_switch = 2
encode_calling_convention CallingConvention.c = 3
encode_calling_convention CallingConvention.c_api_callback = 4

abbrev pub read_calling_convention : Reader CallingConvention
read_calling_convention = read_uint var_uint32_of_u32 >>= decode_calling_convention

abbrev pub write_calling_convention : CallingConvention → Written
write_calling_convention calling_convention =
    write_uint var_uint32_of_u32 (encode_calling_convention calling_convention)

-- The tag, and the calling convention after the tag that announces one.
abbrev pub write_convention : CallingConvention → Written
write_convention CallingConvention.wasm = bytes (96 ∷ [])
write_convention calling_convention = bytes (97 ∷ []) <> write_calling_convention calling_convention

abbrev pub read_convention : ℕ → Reader CallingConvention
read_convention tag =
    if tag == 96
    then pure CallingConvention.wasm
    else (if tag == 97
        then read_calling_convention
        else throw FatalSerializationException.unknown_function_type_tag)

abbrev pub write_function_type : FunctionType → Written
write_function_type type =
    write_convention type.calling_convention
    <> write_type_tuple type.params
    <> write_type_tuple type.results

abbrev pub read_function_type : Reader FunctionType
read_function_type = (next_byte >>= read_convention) >>= λ calling_convention.
    read_type_tuple >>= λ params. read_type_tuple >>= λ results.
    pure (record { results = results; params = params; calling_convention = calling_convention })
