-- ===== src/Validate/Keeps/Parametric.antt =====
-- The parametric operators of Lib/IR/Validate.cpp in the logic of the parent module.
use wavm.Prelude.{ℕ, true, false, not, ◌&&◌, ◌||◌, List}
use wavm.Ir.Features.{Feature}
use wavm.Ir.Operators.{Imm, Signature}
use wavm.Ir.Types.{ValueType, ReferenceType, value_type_eq, is_reference_type, as_value_type}
use wavm.Validate.Control as C
use wavm.Validate.Parametric as P
use wavm.Validate.Keeps.{
  Keeps-bind, Keeps-lift, Keeps-if, push_operand-Keeps, push_operand_tuple-Keeps,
  enter_unreachable-Keeps,
}
use wavm.Validate.Keeps.Immediates.{Fits, HasShape, validate_imm-Checks, signature_of-Checks}
use wavm.Validate.Keeps.Operands.{
  pop-Keeps, pop_types-Keeps, get_branch_target-Keeps, validate_local_index-Keeps,
}
use wavm.Validate.Keeps.References.{
  IsIndexed, validate_value_type-Checks, validate_reference_type-Checks,
  validate_global_index-Checks, validate_function_index-Checks, validate_function_type-Checks,
}
use wavm.Validate.Result.{ValidationException}
use wavm.Validate.Imms.{validate_imm}
use wavm.Validate.State.{ControlType, ControlContext, Context}
use wavm.Validate.Keeps.Steps.{
  Ok, then_, drop-Keeps, feature-Keeps, unless-Keeps, table_at-Keeps, exception_type-Keeps,
}

module _ (ctx : Context) (v : IsIndexed ctx.ir) (c : ControlContext) (cs : List ControlContext)
    (base : List ValueType) where
  pub select_untyped-Keeps : Ok ctx c cs base (P.select_untyped ctx)
  unfolding P.select_untyped
  select_untyped-Keeps = then_ ctx c cs base (pop-Keeps c cs base ValueType.any) λ f.
      then_ ctx c cs base (pop-Keeps c cs base ValueType.any) λ t.
        unless-Keeps ctx c cs base ValidationException.select_operands_not_numeric
          (P.not_none_nor_numeric ctx f || P.not_none_nor_numeric ctx t)
          λ _.
            Keeps-if c cs base (value_type_eq f ValueType.none) (push_operand-Keeps c cs base t) (
              Keeps-if c cs base (value_type_eq t ValueType.none) (push_operand-Keeps c cs base f) (
                unless-Keeps ctx c cs base ValidationException.select_operands_differ
                  (not (value_type_eq f t)) λ _. push_operand-Keeps c cs base f))

  pub select-Keeps : (type : ValueType) → Ok ctx c cs base (P.select ctx type)
  unfolding P.select P.select_typed
  select-Keeps type = then_ ctx c cs base (drop-Keeps ctx c cs base ValueType.i32) λ _.
      Keeps-if c cs base _ select_untyped-Keeps (
        then_ ctx c cs base (feature-Keeps ctx c cs base _) λ _.
          then_ ctx c cs base
            (Keeps-lift c cs base _ (validate_value_type-Checks ctx.ir type v.mvp))
            λ _. then_ ctx c cs base (drop-Keeps ctx c cs base type) λ _.
              then_ ctx c cs base (drop-Keeps ctx c cs base type)
                λ _. push_operand-Keeps c cs base type)

  pub local_get-Keeps : (i : ℕ) → Ok ctx c cs base (P.local_get ctx i)
  unfolding P.local_get
  local_get-Keeps i =
      then_ ctx c cs base (validate_local_index-Keeps c cs base ctx i)
        λ type. push_operand-Keeps c cs base type

  pub local_set-Keeps : (i : ℕ) → Ok ctx c cs base (P.local_set ctx i)
  unfolding P.local_set
  local_set-Keeps i =
      then_ ctx c cs base (validate_local_index-Keeps c cs base ctx i)
        λ type. drop-Keeps ctx c cs base type

  pub local_tee-Keeps : (i : ℕ) → Ok ctx c cs base (P.local_tee ctx i)
  unfolding P.local_tee
  local_tee-Keeps i = then_ ctx c cs base (validate_local_index-Keeps c cs base ctx i) λ type.
      then_ ctx c cs base (pop-Keeps c cs base type) λ operand. push_operand-Keeps c cs base operand

  pub global_get-Keeps : (i : ℕ) → Ok ctx c cs base (P.global_get ctx i)
  unfolding P.global_get
  global_get-Keeps i =
      then_ ctx c cs base
        (Keeps-lift c cs base _ (validate_global_index-Checks ctx.ir i false false false))
        λ type. push_operand-Keeps c cs base type

  pub global_set-Keeps : (i : ℕ) → Ok ctx c cs base (P.global_set ctx i)
  unfolding P.global_set
  global_set-Keeps i =
      then_ ctx c cs base
        (Keeps-lift c cs base _ (validate_global_index-Checks ctx.ir i true false false))
        λ type. drop-Keeps ctx c cs base type

  pub table_get-Keeps : (i : ℕ) → Ok ctx c cs base (P.table_get ctx i)
  unfolding P.table_get
  table_get-Keeps i =
      then_ ctx c cs base (table_at-Keeps ctx c cs base i)
        λ type. then_ ctx c cs base (drop-Keeps ctx c cs base _) λ _. push_operand-Keeps c cs base _

  pub table_set-Keeps : (i : ℕ) → Ok ctx c cs base (P.table_set ctx i)
  unfolding P.table_set
  table_set-Keeps i =
      then_ ctx c cs base (table_at-Keeps ctx c cs base i) λ type. pop_types-Keeps c cs base _

  pub table_grow-Keeps : (i : ℕ) → Ok ctx c cs base (P.table_grow ctx i)
  unfolding P.table_grow
  table_grow-Keeps i =
      then_ ctx c cs base (table_at-Keeps ctx c cs base i) λ type.
        then_ ctx c cs base (pop_types-Keeps c cs base _) λ _. push_operand-Keeps c cs base _

  pub table_fill-Keeps : (i : ℕ) → Ok ctx c cs base (P.table_fill ctx i)
  unfolding P.table_fill
  table_fill-Keeps i =
      then_ ctx c cs base (table_at-Keeps ctx c cs base i) λ type. pop_types-Keeps c cs base _

  pub throw-Keeps : (i : ℕ) → Ok ctx c cs base (P.throw_ ctx i)
  unfolding P.throw_
  throw-Keeps i = then_ ctx c cs base (feature-Keeps ctx c cs base _) λ _.
      then_ ctx c cs base (exception_type-Keeps ctx c cs base i) λ type.
        then_ ctx c cs base (pop_types-Keeps c cs base type.params)
          λ _. enter_unreachable-Keeps c cs base

  pub rethrow-Keeps : (depth : ℕ) → Ok ctx c cs base (P.rethrow ctx depth)
  unfolding P.rethrow
  rethrow-Keeps depth = then_ ctx c cs base (feature-Keeps ctx c cs base _) λ _.
      then_ ctx c cs base (get_branch_target-Keeps c cs base depth) λ target.
        unless-Keeps ctx c cs base ValidationException.rethrow_outside_catch
          (not (C.control_eq target.type ControlType.catch_)) λ _. enter_unreachable-Keeps c cs base

  pub ref_null-Keeps : (type : ReferenceType) → Ok ctx c cs base (P.ref_null ctx type)
  unfolding P.ref_null
  ref_null-Keeps type =
      then_ ctx c cs base (Keeps-lift c cs base _ (validate_reference_type-Checks ctx.ir type))
        λ _. push_operand-Keeps c cs base _

  pub ref_is_null-Keeps : Ok ctx c cs base (P.ref_is_null ctx)
  unfolding P.ref_is_null
  ref_is_null-Keeps = then_ ctx c cs base (pop-Keeps c cs base ValueType.any) λ type.
      unless-Keeps ctx c cs base ValidationException.expected_reference_type
        (not (is_reference_type type) && not (value_type_eq type ValueType.none))
        λ _. push_operand-Keeps c cs base _

  pub call-Keeps : (i : ℕ) → Ok ctx c cs base (P.call ctx i)
  unfolding P.call
  call-Keeps i =
      then_ ctx c cs base (Keeps-lift c cs base _ (validate_function_index-Checks ctx.ir i v)) λ f.
        then_ ctx c cs base (pop_types-Keeps c cs base f.params)
          λ _. push_operand_tuple-Keeps c cs base f.results

  pub call_indirect-Keeps : (type_index i : ℕ) → Ok ctx c cs base (P.call_indirect ctx type_index i)
  unfolding P.call_indirect
  call_indirect-Keeps type_index i = then_ ctx c cs base (table_at-Keeps ctx c cs base i) λ type.
      unless-Keeps ctx c cs base ValidationException.call_indirect_table_type
        (not (value_type_eq (as_value_type type.element_type) ValueType.funcref))
        λ _.
          then_ ctx c cs base
            (Keeps-lift c cs base _ (validate_function_type-Checks ctx.ir type_index))
            λ f. then_ ctx c cs base (drop-Keeps ctx c cs base _) λ _.
              then_ ctx c cs base (pop_types-Keeps c cs base f.params)
                λ _. push_operand_tuple-Keeps c cs base f.results

  pub plain-Keeps :
      (f : Feature) (sig : Signature) (imm : Imm)
      → Fits sig imm
      → HasShape imm
      → Ok ctx c cs base (P.plain ctx f sig imm)
  unfolding P.plain
  plain-Keeps f sig imm fits shape = then_ ctx c cs base (feature-Keeps ctx c cs base f) λ _.
      Keeps-bind c cs base
        (Keeps-lift c cs base (validate_imm ctx imm) (validate_imm-Checks ctx imm v shape))
        λ _ h.
          then_ ctx c cs base (Keeps-lift c cs base _ (signature_of-Checks ctx sig imm fits h))
            λ op.
              then_ ctx c cs base (pop_types-Keeps c cs base op.params)
                λ _. push_operand_tuple-Keeps c cs base op.results
