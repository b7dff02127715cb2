-- ===== src/Validate/Imms.antt =====
-- `validateImm` of Lib/IR/Validate.cpp, and the signatures that depend on the module and the
-- immediate: Include/WAVM/IR/OperatorSignatures.h.
use wavm.Prelude.{
  ℕ, not, ◌&&◌, List, [], ◌∷◌, ltb, leb, ◌==◌, ◌*◌, length, get_elem?, if◌then◌else◌,
}
use wavm.Ir.Module.{ElemContents, space_size, memory_type, table_type}
use wavm.Ir.Operators.{Imm, MemoryOrder, OpSignature, Signature}
use wavm.Ir.Types.{
  ValueType, ReferenceType, IndexType, TypeTuple, index_value_type, as_value_type, value_type_eq,
  is_subtype, is_reference_subtype, as_reference_type, u32_max, u64_max,
}
use wavm.Validate.References.{validate_function_index, validate_function_ref_is_declared}
use wavm.Validate.Result.{
  ValidationException, Result, ok, fault, ◌>>=◌, ◌>>◌, validate_unless, validate_index, in_range,
}
use wavm.Validate.State.{Context}

abbrev pub memory_index : Context → ℕ → Result (Unit {0})
memory_index ctx i = validate_index i (space_size ctx.ir.memories)

abbrev pub table_index : Context → ℕ → Result (Unit {0})
table_index ctx i = validate_index i (space_size ctx.ir.tables)

abbrev pub validate_offset : IndexType → ℕ → Result (Unit {0})
validate_offset IndexType.i32 offset =
    validate_unless ValidationException.offset_too_large (ltb u32_max offset)
validate_offset IndexType.i64 offset =
    validate_unless ValidationException.offset_too_large (ltb u64_max offset)

unfoldable pub validate_load_or_store : Context → ℕ → ℕ → ℕ → ℕ → Result (Unit {0})
validate_load_or_store ctx natural alignment_log2 offset memory = do
  validate_unless ValidationException.alignment_too_large (ltb natural alignment_log2)
  memory_index ctx memory
  type ← in_range (memory_type ctx.ir memory)
  validate_offset type.index_type offset

-- The loop over the lanes of a shuffle; a lane index too few is a read out of range.
unfoldable pub validate_lanes : ℕ → List ℕ → Result (Unit {0})
validate_lanes num_lanes [] = ok tt
validate_lanes num_lanes (lane ∷ lanes) =
    validate_unless ValidationException.invalid_lane_index (leb (num_lanes * 2) lane)
    >> validate_lanes num_lanes lanes

abbrev pub contents_type : ElemContents → ReferenceType
contents_type (ElemContents.expr type exprs) = type
contents_type (ElemContents.index kind indices) = as_reference_type kind

unfoldable pub validate_imm : Context → Imm → Result (Unit {0})
unfolding validate_load_or_store validate_lanes
validate_imm ctx Imm.no_imm = ok tt
validate_imm ctx (Imm.literal v) = ok tt
validate_imm ctx (Imm.load_or_store natural alignment_log2 offset memory) =
    validate_load_or_store ctx natural alignment_log2 offset memory
validate_imm ctx (Imm.load_or_store_lane natural lanes alignment_log2 offset memory lane) = do
  validate_load_or_store ctx natural alignment_log2 offset memory
  validate_unless ValidationException.invalid_lane_index (leb lanes lane)
validate_imm ctx (Imm.memory memory) = memory_index ctx memory
validate_imm ctx (Imm.memory_copy dest source) = do memory_index ctx source; memory_index ctx dest
validate_imm ctx (Imm.table table) = table_index ctx table
validate_imm ctx (Imm.table_copy dest source) = do
  table_index ctx source
  table_index ctx dest
  source_type ← in_range (table_type ctx.ir source)
  dest_type ← in_range (table_type ctx.ir dest)
  validate_unless ValidationException.incompatible_table_elem_types (
      not (
        is_subtype (as_value_type source_type.element_type) (as_value_type dest_type.element_type)))
validate_imm ctx (Imm.function_ref f) = do
  _ ← validate_function_index ctx.ir f
  validate_function_ref_is_declared ctx.declared f
validate_imm ctx (Imm.lane_index lanes lane) =
    validate_unless ValidationException.invalid_lane_index (leb lanes lane)
validate_imm ctx (Imm.shuffle lanes indices) =
    if length indices == lanes then validate_lanes lanes indices else fault
validate_imm ctx (Imm.atomic_load_or_store natural alignment_log2 offset memory) = do
  validate_unless ValidationException.alignment_not_natural (not (alignment_log2 == natural))
  memory_index ctx memory
-- The assertion on the order holds: the enumeration has no other member.
validate_imm ctx (Imm.atomic_fence MemoryOrder.sequentially_consistent) = ok tt
validate_imm ctx (Imm.data_segment_and_mem segment memory) = do
  memory_index ctx memory
  validate_index segment (length ctx.ir.data_segments)
validate_imm ctx (Imm.data_segment segment) = validate_index segment (length ctx.ir.data_segments)
validate_imm ctx (Imm.elem_segment_and_table segment table) = do
  validate_index segment (length ctx.ir.elem_segments)
  table_index ctx table
  type ← in_range (table_type ctx.ir table)
  elem_segment ← in_range (get_elem? ctx.ir.elem_segments segment)
  validate_unless ValidationException.incompatible_table_elem_types
      (not (is_reference_subtype (contents_type elem_segment.contents) type.element_type))
validate_imm ctx (Imm.elem_segment segment) = validate_index segment (length ctx.ir.elem_segments)

abbrev pub signature : TypeTuple → TypeTuple → Result OpSignature
signature results params = ok (record { results = results; params = params })

-- The operand type of addresses of a memory, and of indices of a table.
abbrev pub memory_index_type : Context → ℕ → Result ValueType
memory_index_type ctx i =
    in_range (memory_type ctx.ir i) >>= λ type. ok (index_value_type type.index_type)

abbrev pub table_index_type : Context → ℕ → Result ValueType
table_index_type ctx i =
    in_range (table_type ctx.ir i) >>= λ type. ok (index_value_type type.index_type)

-- The `memoryIndex` member of an immediate of a load, store or atomic operator.
abbrev pub base_memory : Imm → Result ℕ
base_memory (Imm.load_or_store natural alignment_log2 offset memory) = ok memory
base_memory (Imm.load_or_store_lane natural lanes alignment_log2 offset memory lane) = ok memory
base_memory (Imm.atomic_load_or_store natural alignment_log2 offset memory) = ok memory
base_memory imm = fault

-- The signatures over one address: what stands before and after it.
abbrev pub addressed : Context → Imm → TypeTuple → TypeTuple → Result OpSignature
addressed ctx imm results operands = do
  memory ← base_memory imm
  index_type ← memory_index_type ctx memory
  signature results (index_type ∷ operands)

-- The two copies: the count is 64-bit only if both index types are.
abbrev pub copy_signature : ValueType → ValueType → Result OpSignature
copy_signature dest source = signature [] (
    dest
    ∷ source
    ∷ (if value_type_eq dest ValueType.i64 && value_type_eq source ValueType.i64
        then ValueType.i64
        else ValueType.i32)
    ∷ [])

unfoldable pub size_signature : Context → Imm → Result OpSignature
size_signature ctx (Imm.memory memory) = memory_index_type ctx memory >>= λ t. signature (t ∷ []) []
size_signature ctx (Imm.table table) = table_index_type ctx table >>= λ t. signature (t ∷ []) []
size_signature ctx imm = fault

unfoldable pub grow_signature : Context → Imm → Result OpSignature
grow_signature ctx (Imm.memory memory) =
    memory_index_type ctx memory >>= λ t. signature (t ∷ []) (t ∷ [])
grow_signature ctx imm = fault

unfoldable pub init_signature : Context → Imm → Result OpSignature
init_signature ctx (Imm.data_segment_and_mem segment memory) =
    memory_index_type ctx memory >>= λ t. signature [] (t ∷ t ∷ t ∷ [])
init_signature ctx (Imm.elem_segment_and_table segment table) =
    table_index_type ctx table >>= λ t. signature [] (t ∷ t ∷ t ∷ [])
init_signature ctx imm = fault

unfoldable pub copies_signature : Context → Imm → Result OpSignature
copies_signature ctx (Imm.memory_copy dest source) = do
  d ← memory_index_type ctx dest
  s ← memory_index_type ctx source
  copy_signature d s
copies_signature ctx (Imm.table_copy dest source) = do
  d ← table_index_type ctx dest
  s ← table_index_type ctx source
  copy_signature d s
copies_signature ctx imm = fault

unfoldable pub fill_signature : Context → Imm → Result OpSignature
fill_signature ctx (Imm.memory memory) =
    memory_index_type ctx memory >>= λ t. signature [] (t ∷ ValueType.i32 ∷ t ∷ [])
fill_signature ctx imm = fault

abbrev pub vectors : ℕ → Result TypeTuple
vectors n =
    if n == 2
    then ok (ValueType.v128 ∷ ValueType.v128 ∷ [])
    else (if n == 3
        then ok (ValueType.v128 ∷ ValueType.v128 ∷ ValueType.v128 ∷ [])
        else (if n == 4
            then ok (ValueType.v128 ∷ ValueType.v128 ∷ ValueType.v128 ∷ ValueType.v128 ∷ [])
            else fault))

unfoldable pub signature_of : Context → Signature → Imm → Result OpSignature
unfolding size_signature grow_signature init_signature copies_signature fill_signature
signature_of ctx (Signature.monomorphic sig) imm = ok sig
signature_of ctx (Signature.load type) imm = addressed ctx imm (type ∷ []) []
signature_of ctx (Signature.store type) imm = addressed ctx imm [] (type ∷ [])
signature_of ctx Signature.load_lane imm =
    addressed ctx imm (ValueType.v128 ∷ []) (ValueType.v128 ∷ [])
signature_of ctx Signature.store_lane imm = addressed ctx imm [] (ValueType.v128 ∷ [])
signature_of ctx (Signature.load_vectors n) imm = vectors n >>= λ vs. addressed ctx imm vs []
signature_of ctx (Signature.store_vectors n) imm = vectors n >>= λ vs. addressed ctx imm [] vs
signature_of ctx Signature.size imm = size_signature ctx imm
signature_of ctx Signature.grow imm = grow_signature ctx imm
signature_of ctx Signature.init imm = init_signature ctx imm
signature_of ctx Signature.copy imm = copies_signature ctx imm
signature_of ctx Signature.fill imm = fill_signature ctx imm
signature_of ctx Signature.notify imm = addressed ctx imm (ValueType.i32 ∷ []) (ValueType.i32 ∷ [])
signature_of ctx Signature.wait32 imm =
    addressed ctx imm (ValueType.i32 ∷ []) (ValueType.i32 ∷ ValueType.i64 ∷ [])
signature_of ctx Signature.wait64 imm =
    addressed ctx imm (ValueType.i32 ∷ []) (ValueType.i64 ∷ ValueType.i64 ∷ [])
signature_of ctx (Signature.atomic_rmw type) imm = addressed ctx imm (type ∷ []) (type ∷ [])
signature_of ctx (Signature.atomic_cmpxchg type) imm =
    addressed ctx imm (type ∷ []) (type ∷ type ∷ [])
