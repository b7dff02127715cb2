-- ===== src/Validate/References.antt =====
-- Validation of indices, block types and initializer expressions: Lib/IR/Validate.cpp.
use wavm.Prelude.{
  ℕ, Bool, true, false, not, ◌&&◌, ◌||◌, List, [], ◌∷◌, ltb, leb, ◌==◌, length, get_elem?,
  if◌then◌else◌,
}
use wavm.Ir.Features.{Feature}
use wavm.Ir.Module.{
  Module, InitializerExpression, KindAndIndex, space_size, function_type_index, global_type,
}
use wavm.Ir.Operators.{BlockType}
use wavm.Ir.Types.{
  ValueType, FunctionType, CallingConvention, ExternKind, as_value_type, convention_code,
  empty_function_type, max_return_values,
}
use wavm.Validate.Result.{
  ValidationException, Result, ok, invalid, ◌>>=◌, ◌>>◌, validate_unless, validate_index,
  validate_feature, in_range,
}
use wavm.Validate.Types.{validate_value_type, validate_type}

unfoldable pub validate_global_index : Module → ℕ → Bool → Bool → Bool → Result ValueType
validate_global_index m i must_be_mutable must_be_immutable must_be_import = do
  validate_index i (space_size m.globals)
  type ← in_range (global_type m i)
  if must_be_mutable && not type.is_mutable
      then invalid ValidationException.immutable_global
      else (if must_be_import && leb (length m.globals.imports) i
          then invalid ValidationException.global_not_imported
          else (if must_be_immutable && type.is_mutable
              then invalid ValidationException.mutable_global_in_initializer
              else ok type.value_type))

unfoldable pub validate_function_index : Module → ℕ → Result FunctionType
validate_function_index m i = do
  validate_index i (space_size m.functions)
  type_index ← in_range (function_type_index m i)
  in_range (get_elem? m.types type_index)

-- `declaredExternRefs`, a hash set in the source, is the list of what was added to it.
abbrev pub Declared : Type 0
Declared = List KindAndIndex

abbrev pub kind_code : ExternKind → ℕ
kind_code ExternKind.invalid = 0
kind_code ExternKind.function = 1
kind_code ExternKind.table = 2
kind_code ExternKind.memory = 3
kind_code ExternKind.global = 4
kind_code ExternKind.exception_type = 5

unfoldable pub contains : Declared → ExternKind → ℕ → Bool
contains [] kind i = false
contains (d ∷ declared) kind i =
    (kind_code d.kind == kind_code kind && d.index == i) || contains declared kind i

unfoldable pub validate_function_ref_is_declared : Declared → ℕ → Result (Unit {0})
validate_function_ref_is_declared declared i =
    validate_unless ValidationException.function_not_declared
      (not (contains declared ExternKind.function i))

unfoldable pub validate_block_type : Module → BlockType → Result FunctionType
validate_block_type m BlockType.no_parameters_or_result = ok empty_function_type
validate_block_type m (BlockType.one_result type) = do
  validate_value_type m type
  ok (record { results = type ∷ []; params = []; calling_convention = CallingConvention.wasm })
validate_block_type m (BlockType.function_type i) = do
  validate_index i (length m.types)
  type ← in_range (get_elem? m.types i)
  let multiple = Feature.multiple_results_and_block_params
  if ltb 0 (length type.params)
      then validate_feature m.feature_spec multiple
      else (if ltb 1 (length type.results)
          then validate_feature m.feature_spec multiple
          else validate_unless ValidationException.invalid_block_calling_convention
              (not (convention_code type.calling_convention == 0)))
  ok type

unfoldable pub validate_function_type : Module → ℕ → Result FunctionType
validate_function_type m i = do
  validate_index i (length m.types)
  type ← in_range (get_elem? m.types i)
  validate_unless ValidationException.too_many_return_values
      (ltb max_return_values (length type.results))
  ok type

unfoldable pub validate_initializer : Module → InitializerExpression → ValueType → Result (Unit {0})
validate_initializer m (InitializerExpression.i32_const v) expected =
    validate_type expected ValueType.i32
validate_initializer m (InitializerExpression.i64_const v) expected =
    validate_type expected ValueType.i64
validate_initializer m (InitializerExpression.f32_const v) expected =
    validate_type expected ValueType.f32
validate_initializer m (InitializerExpression.f64_const v) expected =
    validate_type expected ValueType.f64
validate_initializer m (InitializerExpression.v128_const v) expected =
    validate_type expected ValueType.v128
validate_initializer m (InitializerExpression.global_get i) expected =
    validate_global_index m i false true true >>= λ type. validate_type expected type
validate_initializer m (InitializerExpression.ref_null type) expected =
    validate_type expected (as_value_type type)
validate_initializer m (InitializerExpression.ref_func i) expected =
    validate_function_index m i >>= λ _. validate_type expected ValueType.funcref
validate_initializer m InitializerExpression.invalid expected =
    invalid ValidationException.invalid_initializer
