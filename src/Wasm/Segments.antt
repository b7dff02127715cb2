-- ===== src/Wasm/Segments.antt =====
-- The binary format of element and data segments: Lib/WASM/WASMSerialization.cpp.
pub mod RoundTrip
use wavm.Prelude.{
  ℕ, ◌+◌, ◌/◌, ◌%◌, Bool, true, false, not, ◌&&◌, List, [], ◌∷◌, ltb, ◌==◌, if◌then◌else◌,
}
use wavm.Ir.Types.{ReferenceType, ExternKind, uptr_max}
use wavm.Ir.Module.{
  InitializerExpression, ElemExpr, ElemContents, ElemMode, ElemSegment, DataSegment,
}
use wavm.Inline.Serialization.{
  FatalSerializationException, Reader, ◌>>=◌, pure, throw, Written, failed, bytes, ◌<>◌, next_byte,
  read_constant,
}
use wavm.Inline.Leb128.Formats.{
  var_uint32, var_uint32_of_u32, write_uint, read_uint, write_array, read_array,
}
use wavm.Wasm.Types.{flag, write_reference_type, read_reference_type}
use wavm.Wasm.Definitions.{write_kind, read_kind}
use wavm.Wasm.Initializers.{
  write_opcode, read_opcode, end_opcode, write_initializer, read_initializer,
}

abbrev pub write_elem_expr : ElemExpr → Written
write_elem_expr ElemExpr.invalid = failed FatalSerializationException.invalid_elem_opcode
write_elem_expr (ElemExpr.ref_null type) =
    write_opcode 208 <> write_reference_type type <> bytes (end_opcode ∷ [])
write_elem_expr (ElemExpr.ref_func index) =
    write_opcode 210 <> write_uint var_uint32 index <> bytes (end_opcode ∷ [])

abbrev pub decode_elem_expr : ℕ → Reader ElemExpr
decode_elem_expr opcode =
    if opcode == 208
    then (read_reference_type >>= λ type. pure (ElemExpr.ref_null type))
    else (if opcode == 210
        then (read_uint var_uint32 >>= λ index. pure (ElemExpr.ref_func index))
        else throw FatalSerializationException.invalid_elem_opcode)

abbrev pub read_elem_expr : Reader ElemExpr
read_elem_expr = read_opcode >>= λ opcode.
    decode_elem_expr opcode >>= λ elem. read_constant end_opcode >>= λ _. pure elem

abbrev pub is_expr : ElemContents → Bool
is_expr (ElemContents.expr elem_type elem_exprs) = true
is_expr (ElemContents.index extern_kind elem_indices) = false

abbrev pub has_non_function_elements : ElemContents → Bool
has_non_function_elements (ElemContents.expr ReferenceType.funcref elem_exprs) = false
has_non_function_elements (ElemContents.index ExternKind.function elem_indices) = false
has_non_function_elements contents = true

abbrev pub mode_flags : ElemMode → Bool → ℕ
mode_flags (ElemMode.active table_index base_offset) non_function =
    if table_index == 0 && not non_function then 0 else 2
mode_flags ElemMode.passive non_function = 1
mode_flags ElemMode.declared non_function = 3

-- The table's index, if the flags announce it, and the base offset.
abbrev pub write_mode : ℕ → ElemMode → Written
write_mode mode (ElemMode.active table_index base_offset) =
    if mode == 2
    then write_uint var_uint32 table_index <> write_initializer base_offset
    else write_initializer base_offset
write_mode mode passive_or_declared = bytes []

abbrev pub read_mode : ℕ → Reader ElemMode
read_mode mode =
    if mode == 0
    then (read_initializer >>= λ base_offset. pure (ElemMode.active 0 base_offset))
    else (if mode == 1
        then pure ElemMode.passive
        else (if mode == 2
            then (read_uint var_uint32 >>= λ table_index.
                read_initializer >>= λ base_offset. pure (ElemMode.active table_index base_offset))
            else pure ElemMode.declared))

-- The contents, after their type or kind unless the flags say `plain`.
abbrev pub write_contents : Bool → ElemContents → Written
write_contents plain (ElemContents.expr elem_type elem_exprs) =
    if plain
    then write_array write_elem_expr elem_exprs
    else write_reference_type elem_type <> write_array write_elem_expr elem_exprs
write_contents plain (ElemContents.index extern_kind elem_indices) =
    if plain
    then write_array (write_uint var_uint32) elem_indices
    else write_kind extern_kind <> write_array (write_uint var_uint32) elem_indices

abbrev pub read_contents : Bool → Bool → Reader ElemContents
read_contents plain true =
    (if plain then pure ReferenceType.funcref else read_reference_type) >>= λ elem_type.
    read_array read_elem_expr >>= λ elem_exprs. pure (ElemContents.expr elem_type elem_exprs)
read_contents plain false =
    (if plain then pure ExternKind.function else read_kind) >>= λ extern_kind.
    read_array (read_uint var_uint32) >>= λ elem_indices.
    pure (ElemContents.index extern_kind elem_indices)

-- `flags & 3`
abbrev pub segment_mode : ElemSegment → ℕ
segment_mode segment = mode_flags segment.mode (has_non_function_elements segment.contents)

abbrev pub write_elem_segment : ElemSegment → Written
write_elem_segment segment =
    write_uint var_uint32_of_u32 (segment_mode segment + flag (is_expr segment.contents) 4)
    <> write_mode (segment_mode segment) segment.mode
    <> write_contents (segment_mode segment == 0) segment.contents

abbrev pub check_elem_flags : ℕ → Reader ℕ
check_elem_flags flags =
    if ltb 7 flags then throw FatalSerializationException.invalid_elem_segment_flags else pure flags

abbrev pub read_elem_segment : Reader ElemSegment
read_elem_segment = (read_uint var_uint32_of_u32 >>= check_elem_flags) >>= λ flags.
    read_mode (flags % 4) >>= λ mode.
    read_contents (flags % 4 == 0) (flags / 4 % 2 == 1) >>= λ contents.
    pure (record { mode = mode; contents = contents })

-- The flags of a data segment and what they announce, without the data. The reader leaves
-- UINTPTR_MAX and an expression of no type in a passive segment.
abbrev pub write_active_data : Bool → ℕ → InitializerExpression → Written
write_active_data true memory_index base_offset = bytes (0 ∷ []) <> write_initializer base_offset
write_active_data false memory_index base_offset =
    bytes (2 ∷ []) <> write_uint var_uint32 memory_index <> write_initializer base_offset

abbrev pub write_data_mode : DataSegment → Written
write_data_mode segment =
    if not segment.is_active
    then bytes (1 ∷ [])
    else write_active_data (segment.memory_index == 0) segment.memory_index segment.base_offset

abbrev pub data_segment_of : Bool → ℕ → InitializerExpression → List ℕ → DataSegment
data_segment_of is_active memory_index base_offset data_bytes = record {
  is_active = is_active;
  memory_index = memory_index;
  base_offset = base_offset;
  bytes = data_bytes;
}

-- The segment, but for its data.
abbrev pub read_data_mode : ℕ → Reader (List ℕ → DataSegment)
read_data_mode flags =
    if flags == 0
    then (read_initializer >>= λ base_offset. pure (data_segment_of true 0 base_offset))
    else (if flags == 1
        then pure (data_segment_of false uptr_max InitializerExpression.invalid)
        else (if flags == 2
            then (read_uint var_uint32 >>= λ memory_index. read_initializer >>= λ base_offset.
                pure (data_segment_of true memory_index base_offset))
            else throw FatalSerializationException.invalid_data_segment_flags))

abbrev pub write_data_segment : DataSegment → Written
write_data_segment segment =
    write_data_mode segment <> write_array (λ b. bytes (b ∷ [])) segment.bytes

abbrev pub read_data_segment : Reader DataSegment
read_data_segment = (read_uint var_uint32_of_u32 >>= read_data_mode) >>= λ segment.
    read_array next_byte >>= λ data_bytes. pure (segment data_bytes)
