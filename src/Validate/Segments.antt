-- ===== src/Validate/Segments.antt =====
-- Validation of the element and data segments, and of a whole module: Lib/IR/Validate.cpp, and
-- the inline functions of Include/WAVM/IR/Validate.h.
use wavm.Prelude.{ℕ, not, List, [], ◌∷◌, ◌==◌, if◌then◌else◌}
use wavm.Ir.Features.{Feature}
use wavm.Ir.Module.{
  Module, DataSegment, ElemExpr, ElemContents, ElemMode, ElemSegment, space_size, table_type,
  memory_type,
}
use wavm.Ir.Types.{ReferenceType, ExternKind, index_value_type, is_reference_subtype}
use wavm.Validate.Function.{validate_code_section}
use wavm.Validate.References.{Declared, kind_code, validate_initializer}
use wavm.Validate.Result.{
  ValidationException, Result, ok, fault, ◌>>=◌, ◌>>◌, validate_unless, validate_index, in_range,
}
use wavm.Validate.Sections.{
  each, feature_if, validate_types, validate_imports, validate_function_declarations,
  validate_table_defs, validate_memory_defs, validate_global_defs, validate_exception_type_defs,
  validate_exports, validate_start_function,
}
use wavm.Validate.Types.{validate_extern_kind}

unfoldable pub validate_elem_encoding : Module → ElemContents → Result (Unit {0})
validate_elem_encoding m (ElemContents.expr type exprs) = ok tt
validate_elem_encoding m (ElemContents.index kind indices) = do
  validate_extern_kind m kind
  feature_if m (not (kind_code kind == kind_code ExternKind.function))
      Feature.allow_any_extern_kind_elem_segments

unfoldable pub segment_elem_type : ElemContents → ReferenceType
segment_elem_type (ElemContents.expr type exprs) = type
segment_elem_type (ElemContents.index ExternKind.function indices) = ReferenceType.funcref
segment_elem_type (ElemContents.index kind indices) = ReferenceType.externref

unfoldable pub validate_elem_mode : Module → ElemContents → ElemMode → Result (Unit {0})
unfolding segment_elem_type
validate_elem_mode m contents (ElemMode.active table_index base_offset) = do
  validate_index table_index (space_size m.tables)
  type ← in_range (table_type m table_index)
  validate_unless ValidationException.segment_type_mismatch
      (not (is_reference_subtype (segment_elem_type contents) type.element_type))
  validate_initializer m base_offset (index_value_type type.index_type)
validate_elem_mode m contents ElemMode.passive = ok tt
validate_elem_mode m contents ElemMode.declared = ok tt

-- The loop over the expressions of a segment.
unfoldable pub validate_elem_exprs :
    Module → ReferenceType → List ElemExpr → Declared → Result Declared
validate_elem_exprs m type [] declared = ok declared
validate_elem_exprs m type (ElemExpr.invalid ∷ exprs) declared = fault
validate_elem_exprs m type (ElemExpr.ref_null null_type ∷ exprs) declared = do
  validate_unless ValidationException.elem_expr_type_mismatch
      (not (is_reference_subtype null_type type))
  validate_elem_exprs m type exprs declared
validate_elem_exprs m type (ElemExpr.ref_func i ∷ exprs) declared = do
  validate_index i (space_size m.functions)
  validate_unless ValidationException.elem_expr_type_mismatch
      (not (is_reference_subtype ReferenceType.funcref type))
  validate_elem_exprs m type exprs (record { kind = ExternKind.function; index = i } ∷ declared)

unfoldable pub validate_elem_index : Module → ExternKind → ℕ → Result (Unit {0})
validate_elem_index m ExternKind.function i = validate_index i (space_size m.functions)
validate_elem_index m ExternKind.table i = validate_index i (space_size m.tables)
validate_elem_index m ExternKind.memory i = validate_index i (space_size m.memories)
validate_elem_index m ExternKind.global i = validate_index i (space_size m.globals)
validate_elem_index m ExternKind.exception_type i = validate_index i (space_size m.exception_types)
validate_elem_index m ExternKind.invalid i = fault

-- The loop over the indices of a segment.
unfoldable pub validate_elem_indices : Module → ExternKind → List ℕ → Declared → Result Declared
unfolding validate_elem_index
validate_elem_indices m kind [] declared = ok declared
validate_elem_indices m kind (i ∷ indices) declared = do
  validate_elem_index m kind i
  validate_elem_indices m kind indices (record { kind = kind; index = i } ∷ declared)

unfoldable pub validate_elem_contents : Module → ElemContents → Declared → Result Declared
unfolding validate_elem_exprs validate_elem_indices
validate_elem_contents m (ElemContents.expr type exprs) = validate_elem_exprs m type exprs
validate_elem_contents m (ElemContents.index kind indices) = validate_elem_indices m kind indices

unfoldable pub validate_elem_segments : Module → List ElemSegment → Declared → Result Declared
unfolding validate_elem_encoding validate_elem_mode validate_elem_contents
validate_elem_segments m [] declared = ok declared
validate_elem_segments m (segment ∷ segments) declared = do
  validate_elem_encoding m segment.contents
  validate_elem_mode m segment.contents segment.mode
  added ← validate_elem_contents m segment.contents declared
  validate_elem_segments m segments added

unfoldable pub validate_data_segment : Module → DataSegment → Result (Unit {0})
validate_data_segment m segment =
    if segment.is_active
    then (do
      validate_index segment.memory_index (space_size m.memories)
      type ← in_range (memory_type m segment.memory_index)
      validate_initializer m segment.base_offset (index_value_type type.index_type))
    else ok tt

unfoldable pub validate_data_segments : Module → Result (Unit {0})
unfolding each validate_data_segment
validate_data_segments m = each (validate_data_segment m) m.data_segments

unfoldable pub validate_pre_code_sections : Module → Result Declared
validate_pre_code_sections m = do
  validate_types m
  imported ← validate_imports m []
  validate_function_declarations m
  validate_table_defs m
  validate_memory_defs m
  initialized ← validate_global_defs m m.globals.defs imported
  validate_exception_type_defs m
  exported ← validate_exports m m.exports [] initialized
  validate_start_function m
  validate_elem_segments m m.elem_segments exported

-- The sections in the order in which a caller validates a whole module.
unfoldable pub validate_module : Module → Result (Unit {0})
validate_module m = do
  declared ← validate_pre_code_sections m
  validate_code_section m declared
  validate_data_segments m
