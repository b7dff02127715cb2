-- ===== src/Validate/Control.antt =====
-- The operator methods of `FunctionValidationContext` in Lib/IR/Validate.cpp: control
-- structures and branches.
use wavm.Prelude.{
  ℕ, Bool, true, not, ◌&&◌, ◌||◌, List, [], ◌∷◌, ◌==◌, length, get_elem?, if◌then◌else◌,
}
use wavm.Ir.Features.{Feature}
use wavm.Ir.Module.{space_size, exception_type}
use wavm.Ir.Operators.{BlockType}
use wavm.Ir.Types.{ValueType, TypeTuple, ExceptionType, tuple_eq}
use wavm.Validate.References.{validate_block_type}
use wavm.Validate.Result.{ValidationException, validate_index, validate_feature, in_range}
use wavm.Validate.State.{
  ControlType, Context, V, pure, ◌>>=◌, ◌>>◌, lift, throw, innermost, set_innermost, pop_control,
  push_operand_tuple, push_control_stack, validate_stack_empty_at_end_of_control_structure,
  enter_unreachable, get_branch_target_by_depth, pop_and_validate_operand, pop_and_validate_types,
  peek_and_validate_types,
}

abbrev pub control_code : ControlType → ℕ
control_code ControlType.function = 0
control_code ControlType.block = 1
control_code ControlType.if_then = 2
control_code ControlType.if_else = 3
control_code ControlType.loop = 4
control_code ControlType.try_ = 5
control_code ControlType.catch_ = 6

abbrev pub control_eq : ControlType → ControlType → Bool
control_eq a b = control_code a == control_code b

abbrev pub pop_ : ValueType → V (Unit {0})
pop_ type = pop_and_validate_operand type >>= λ _. pure tt

module _ (ctx : Context) where
  abbrev pub feature : Feature → V (Unit {0})
  feature f = lift (validate_feature ctx.ir.feature_spec f)

  unfoldable pub block : BlockType → V (Unit {0})
  block imm = do
    type ← lift (validate_block_type ctx.ir imm)
    pop_and_validate_types type.params
    push_control_stack ControlType.block type.results type.results []
    push_operand_tuple type.params

  unfoldable pub loop : BlockType → V (Unit {0})
  loop imm = do
    type ← lift (validate_block_type ctx.ir imm)
    pop_and_validate_types type.params
    push_control_stack ControlType.loop type.params type.results []
    push_operand_tuple type.params

  unfoldable pub if_ : BlockType → V (Unit {0})
  if_ imm = do
    type ← lift (validate_block_type ctx.ir imm)
    pop_ ValueType.i32
    pop_and_validate_types type.params
    push_control_stack ControlType.if_then type.results type.results type.params
    push_operand_tuple type.params

  unfoldable pub else_ : V (Unit {0})
  else_ = do
    c ← innermost
    if not (control_eq c.type ControlType.if_then)
        then throw ValidationException.else_outside_if
        else pure tt
    pop_and_validate_types c.results
    validate_stack_empty_at_end_of_control_structure
    set_innermost (record c { type = ControlType.if_else; is_reachable = true })
    push_operand_tuple c.else_params

  -- `if(controlStack.size()) { pushOperandTuple(results); }`
  abbrev pub push_results_of_block : TypeTuple → V (Unit {0})
  push_results_of_block results s = elim s.control_stack [
    | [] ↦ pure tt s
    | c ∷ cs ↦ push_operand_tuple results s
  ]

  unfoldable pub end : V (Unit {0})
  end = do
    c ← innermost
    if control_eq c.type ControlType.try_
        then throw ValidationException.end_in_try
        else (if control_eq c.type ControlType.if_then && not (tuple_eq c.results c.else_params)
            then throw ValidationException.else_less_if
            else pure tt)
    pop_and_validate_types c.results
    validate_stack_empty_at_end_of_control_structure
    pop_control
    push_results_of_block c.results

  unfoldable pub try_ : BlockType → V (Unit {0})
  try_ imm = do
    type ← lift (validate_block_type ctx.ir imm)
    feature Feature.exception_handling
    pop_and_validate_types type.params
    push_control_stack ControlType.try_ type.results type.results []
    push_operand_tuple type.params

  unfoldable pub validate_catch : V (Unit {0})
  validate_catch = do
    c ← innermost
    pop_and_validate_types c.results
    validate_stack_empty_at_end_of_control_structure
    if control_eq c.type ControlType.try_ || control_eq c.type ControlType.catch_
        then set_innermost (record c { type = ControlType.catch_; is_reachable = true })
        else throw ValidationException.catch_outside_try

  abbrev pub exception_type_at : ℕ → V ExceptionType
  exception_type_at i = do
    lift (validate_index i (space_size ctx.ir.exception_types))
    lift (in_range (exception_type ctx.ir i))

  unfoldable pub catch_ : ℕ → V (Unit {0})
  unfolding validate_catch
  catch_ i = do
    feature Feature.exception_handling
    type ← exception_type_at i
    validate_catch
    push_operand_tuple type.params

  unfoldable pub catch_all : V (Unit {0})
  unfolding validate_catch
  catch_all = do feature Feature.exception_handling; validate_catch

  unfoldable pub return_ : V (Unit {0})
  return_ = do pop_and_validate_types ctx.function_type.results; enter_unreachable

  unfoldable pub br : ℕ → V (Unit {0})
  br depth = do
    target ← get_branch_target_by_depth depth
    pop_and_validate_types target.params
    enter_unreachable

  -- The loop over the targets of a `br_table`.
  unfoldable pub check_targets : TypeTuple → List ℕ → V (Unit {0})
  check_targets default_params [] = pure tt
  check_targets default_params (depth ∷ depths) =
      let rest = check_targets default_params depths in
      do
        target ← get_branch_target_by_depth depth
        if not (length target.params == length default_params)
            then throw ValidationException.br_table_arity
            else peek_and_validate_types target.params
        rest

  unfoldable pub br_table : ℕ → ℕ → V (Unit {0})
  unfolding check_targets
  br_table default_depth table = do
    pop_ ValueType.i32
    default_target ← get_branch_target_by_depth default_depth
    depths ← lift (in_range (get_elem? ctx.function_def.branch_tables table))
    check_targets default_target.params depths
    pop_and_validate_types default_target.params
    enter_unreachable

  unfoldable pub br_if : ℕ → V (Unit {0})
  br_if depth = do
    target ← get_branch_target_by_depth depth
    pop_ ValueType.i32
    pop_and_validate_types target.params
    push_operand_tuple target.params
