-- ===== src/Validate/Parametric.antt =====
-- The operator methods of `FunctionValidationContext` in Lib/IR/Validate.cpp: variables, tables,
-- exceptions, references, calls, and the operators of the table of signatures.
use wavm.Prelude.{ℕ, Bool, true, false, not, ◌&&◌, ◌||◌, [], ◌∷◌, if◌then◌else◌}
use wavm.Ir.Features.{Feature}
use wavm.Ir.Module.{space_size, table_type}
use wavm.Ir.Operators.{Signature, Imm}
use wavm.Ir.Types.{
  ValueType, ReferenceType, TableType, value_type_eq, index_value_type, as_value_type,
  is_numeric_type, is_reference_type,
}
use wavm.Validate.Control.{control_eq, pop_, feature, exception_type_at}
use wavm.Validate.Imms.{validate_imm, signature_of}
use wavm.Validate.References.{
  validate_global_index, validate_function_index, validate_function_type,
}
use wavm.Validate.Result.{ValidationException, validate_unless, validate_index, in_range}
use wavm.Validate.State.{
  ControlType, Context, V, ◌>>=◌, ◌>>◌, lift, push_operand, push_operand_tuple, enter_unreachable,
  get_branch_target_by_depth, validate_local_index, pop_and_validate_operand,
  pop_and_validate_types,
}
use wavm.Validate.Types.{validate_value_type, validate_reference_type}

module _ (ctx : Context) where
  abbrev pub not_none_nor_numeric : ValueType → Bool
  not_none_nor_numeric type = not (value_type_eq type ValueType.none) && not (is_numeric_type type)

  -- The untyped `select` takes two numeric operands of one type.
  unfoldable pub select_untyped : V (Unit {0})
  select_untyped = do
    false_type ← pop_and_validate_operand ValueType.any
    true_type ← pop_and_validate_operand ValueType.any
    lift (
        validate_unless ValidationException.select_operands_not_numeric
          (not_none_nor_numeric false_type || not_none_nor_numeric true_type))
    if value_type_eq false_type ValueType.none
        then push_operand true_type
        else (if value_type_eq true_type ValueType.none then push_operand false_type else (do
          lift (
              validate_unless ValidationException.select_operands_differ
                (not (value_type_eq false_type true_type)))
          push_operand false_type))

  unfoldable pub select_typed : ValueType → V (Unit {0})
  select_typed type = do
    feature ctx Feature.reference_types
    lift (validate_value_type ctx.ir type)
    pop_ type
    pop_ type
    push_operand type

  unfoldable pub select : ValueType → V (Unit {0})
  unfolding select_untyped select_typed
  select type = do
    pop_ ValueType.i32
    if value_type_eq type ValueType.any then select_untyped else select_typed type

  unfoldable pub local_get : ℕ → V (Unit {0})
  local_get i = do type ← validate_local_index ctx i; push_operand type

  unfoldable pub local_set : ℕ → V (Unit {0})
  local_set i = do type ← validate_local_index ctx i; pop_ type

  unfoldable pub local_tee : ℕ → V (Unit {0})
  local_tee i = do
    local_type ← validate_local_index ctx i
    operand_type ← pop_and_validate_operand local_type
    push_operand operand_type

  unfoldable pub global_get : ℕ → V (Unit {0})
  global_get i = do
    type ← lift (validate_global_index ctx.ir i false false false)
    push_operand type

  unfoldable pub global_set : ℕ → V (Unit {0})
  global_set i = do type ← lift (validate_global_index ctx.ir i true false false); pop_ type

  abbrev pub table_at : ℕ → V TableType
  table_at i = do
    lift (validate_index i (space_size ctx.ir.tables))
    lift (in_range (table_type ctx.ir i))

  unfoldable pub table_get : ℕ → V (Unit {0})
  table_get i = do
    type ← table_at i
    pop_ (index_value_type type.index_type)
    push_operand (as_value_type type.element_type)

  unfoldable pub table_set : ℕ → V (Unit {0})
  table_set i = do
    type ← table_at i
    pop_and_validate_types (index_value_type type.index_type ∷ as_value_type type.element_type ∷ [])

  -- It pushes an i32 also where the table's indices are 64-bit.
  unfoldable pub table_grow : ℕ → V (Unit {0})
  table_grow i = do
    type ← table_at i
    pop_and_validate_types (as_value_type type.element_type ∷ index_value_type type.index_type ∷ [])
    push_operand ValueType.i32

  unfoldable pub table_fill : ℕ → V (Unit {0})
  table_fill i = do
    type ← table_at i
    pop_and_validate_types
        (ValueType.i32 ∷ as_value_type type.element_type ∷ index_value_type type.index_type ∷ [])

  unfoldable pub throw_ : ℕ → V (Unit {0})
  throw_ i = do
    feature ctx Feature.exception_handling
    type ← exception_type_at ctx i
    pop_and_validate_types type.params
    enter_unreachable

  unfoldable pub rethrow : ℕ → V (Unit {0})
  rethrow depth = do
    feature ctx Feature.exception_handling
    target ← get_branch_target_by_depth depth
    lift (
        validate_unless ValidationException.rethrow_outside_catch
          (not (control_eq target.type ControlType.catch_)))
    enter_unreachable

  unfoldable pub ref_null : ReferenceType → V (Unit {0})
  ref_null type = do lift (validate_reference_type ctx.ir type); push_operand (as_value_type type)

  unfoldable pub ref_is_null : V (Unit {0})
  ref_is_null = do
    type ← pop_and_validate_operand ValueType.any
    lift (
        validate_unless ValidationException.expected_reference_type
          (not (is_reference_type type) && not (value_type_eq type ValueType.none)))
    push_operand ValueType.i32

  unfoldable pub call : ℕ → V (Unit {0})
  call i = do
    callee ← lift (validate_function_index ctx.ir i)
    pop_and_validate_types callee.params
    push_operand_tuple callee.results

  unfoldable pub call_indirect : ℕ → ℕ → V (Unit {0})
  call_indirect type_index i = do
    type ← table_at i
    lift (
        validate_unless ValidationException.call_indirect_table_type
          (not (value_type_eq (as_value_type type.element_type) ValueType.funcref)))
    callee ← lift (validate_function_type ctx.ir type_index)
    pop_ (index_value_type type.index_type)
    pop_and_validate_types callee.params
    push_operand_tuple callee.results

  -- `VALIDATE_OP` and `VALIDATE_POLYMORPHIC_OP`
  unfoldable pub plain : Feature → Signature → Imm → V (Unit {0})
  plain required sig imm = do
    feature ctx required
    lift (validate_imm ctx imm)
    op ← lift (signature_of ctx sig imm)
    pop_and_validate_types op.params
    push_operand_tuple op.results
