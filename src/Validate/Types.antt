-- ===== src/Validate/Types.antt =====
-- Validation of types: the `validate` overloads of Lib/IR/Validate.cpp.
use wavm.Prelude.{ℕ, Bool, not, [], ◌∷◌, ltb, ◌==◌, if◌then◌else◌}
use wavm.Ir.Features.{Feature}
use wavm.Ir.Module.{Module}
use wavm.Ir.Types.{
  ValueType, ReferenceType, IndexType, SizeConstraints, TableType, MemoryType, GlobalType,
  TypeTuple, ExternKind, u64_max, max_memory32_pages, max_memory64_pages, max_table32_elems,
  max_table64_elems, is_subtype, index_type_eq,
}
use wavm.Validate.Result.{
  ValidationException, Result, ok, invalid, ◌>>◌, validate_unless, validate_feature, assert,
}

unfoldable pub validate_value_type : Module → ValueType → Result (Unit {0})
validate_value_type m ValueType.i32 = assert (m.feature_spec.enabled Feature.mvp)
validate_value_type m ValueType.i64 = assert (m.feature_spec.enabled Feature.mvp)
validate_value_type m ValueType.f32 = assert (m.feature_spec.enabled Feature.mvp)
validate_value_type m ValueType.f64 = assert (m.feature_spec.enabled Feature.mvp)
validate_value_type m ValueType.v128 = validate_feature m.feature_spec Feature.simd
validate_value_type m ValueType.externref = validate_feature m.feature_spec Feature.reference_types
validate_value_type m ValueType.funcref = validate_feature m.feature_spec Feature.reference_types
validate_value_type m ValueType.none = invalid ValidationException.invalid_value_type
validate_value_type m ValueType.any = invalid ValidationException.invalid_value_type

unfoldable pub validate_size : SizeConstraints → ℕ → Result (Unit {0})
validate_size size max_max = do
  let max = if size.max == u64_max then max_max else size.max
  validate_unless ValidationException.disjoint_size_bounds (ltb max size.min)
  validate_unless ValidationException.size_exceeds_limit (ltb max_max max)

unfoldable pub validate_reference_type : Module → ReferenceType → Result (Unit {0})
validate_reference_type m ReferenceType.funcref = ok tt
validate_reference_type m ReferenceType.externref =
    validate_feature m.feature_spec Feature.reference_types
validate_reference_type m ReferenceType.none = invalid ValidationException.invalid_reference_type

-- `if(isShared)` of tables and memories.
abbrev pub validate_shared : Module → Feature → Bool → SizeConstraints → Result (Unit {0})
validate_shared m f is_shared size =
    if is_shared
    then (do
      validate_feature m.feature_spec f
      validate_unless ValidationException.shared_without_maximum (size.max == u64_max))
    else ok tt

abbrev pub validate_index_type : Module → Feature → IndexType → Result (Unit {0})
validate_index_type m f index_type =
    if not (index_type_eq index_type IndexType.i32)
    then validate_feature m.feature_spec f
    else ok tt

unfoldable pub validate_table_type : Module → TableType → Result (Unit {0})
unfolding validate_reference_type validate_size
validate_table_type m type = do
  validate_reference_type m type.element_type
  validate_size type.size
      (if index_type_eq type.index_type IndexType.i32 then max_table32_elems else max_table64_elems)
  validate_shared m Feature.shared_tables type.is_shared type.size
  validate_index_type m Feature.table64 type.index_type

unfoldable pub validate_memory_type : Module → MemoryType → Result (Unit {0})
unfolding validate_size
validate_memory_type m type = do
  validate_size type.size (
      if index_type_eq type.index_type IndexType.i32
      then max_memory32_pages
      else max_memory64_pages)
  validate_shared m Feature.atomics type.is_shared type.size
  validate_index_type m Feature.memory64 type.index_type

unfoldable pub validate_global_type : Module → GlobalType → Result (Unit {0})
unfolding validate_value_type
validate_global_type m type = validate_value_type m type.value_type

unfoldable pub validate_type_tuple : Module → TypeTuple → Result (Unit {0})
validate_type_tuple m [] = ok tt
validate_type_tuple m (type ∷ types) = validate_value_type m type >> validate_type_tuple m types

-- `validateType`: the actual type must be a subtype of the expected one.
unfoldable pub validate_type : ValueType → ValueType → Result (Unit {0})
validate_type expected actual =
    validate_unless ValidationException.type_mismatch (not (is_subtype actual expected))

unfoldable pub validate_extern_kind : Module → ExternKind → Result (Unit {0})
validate_extern_kind m ExternKind.function = ok tt
validate_extern_kind m ExternKind.table = ok tt
validate_extern_kind m ExternKind.memory = ok tt
validate_extern_kind m ExternKind.global = ok tt
validate_extern_kind m ExternKind.exception_type =
    validate_feature m.feature_spec Feature.exception_handling
validate_extern_kind m ExternKind.invalid = invalid ValidationException.invalid_extern_kind
