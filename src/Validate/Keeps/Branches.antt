-- ===== src/Validate/Keeps/Branches.antt =====
-- The branches of Lib/IR/Validate.cpp in the logic of the parent module.
use wavm.Prelude.{ℕ, ◌<◌, List, [], ◌∷◌, length, get_elem?-some}
use wavm.Ir.Types.{ValueType, TypeTuple}
use wavm.Validate.Control as C
use wavm.Validate.Keeps.{
  Keeps-pure, Keeps-throw, Keeps-lift, Keeps-if, push_operand_tuple-Keeps, enter_unreachable-Keeps,
}
use wavm.Validate.Keeps.Operands.{pop_types-Keeps, peek_types-Keeps, get_branch_target-Keeps}
use wavm.Validate.Keeps.References.{in_range-Checks}
use wavm.Validate.State.{ControlContext, Context}
use wavm.Validate.Keeps.Steps.{Ok, then_, drop-Keeps}

module _ (ctx : Context) (c : ControlContext) (cs : List ControlContext)
    (base : List ValueType) where
  pub return-Keeps : Ok ctx c cs base (C.return_ ctx)
  unfolding C.return_
  return-Keeps =
      then_ ctx c cs base (pop_types-Keeps c cs base ctx.function_type.results)
        λ _. enter_unreachable-Keeps c cs base

  pub br-Keeps : (depth : ℕ) → Ok ctx c cs base (C.br ctx depth)
  unfolding C.br
  br-Keeps depth = then_ ctx c cs base (get_branch_target-Keeps c cs base depth) λ target.
      then_ ctx c cs base (pop_types-Keeps c cs base target.params)
        λ _. enter_unreachable-Keeps c cs base

  pub check_targets-Keeps :
      (params : TypeTuple) (depths : List ℕ) → Ok ctx c cs base (C.check_targets ctx params depths)
  unfolding C.check_targets
  check_targets-Keeps params [] = Keeps-pure c cs base tt tt
  check_targets-Keeps params (depth ∷ depths) =
      then_ ctx c cs base (get_branch_target-Keeps c cs base depth) λ target.
        then_ ctx c cs base
          (Keeps-if c cs base _ (Keeps-throw c cs base _)
            (peek_types-Keeps c cs base target.params))
          λ _. check_targets-Keeps params depths

  pub br_table-Keeps :
      (depth table : ℕ)
      → table < length ctx.function_def.branch_tables
      → Ok ctx c cs base (C.br_table ctx depth table)
  unfolding C.br_table
  br_table-Keeps depth table h = then_ ctx c cs base (drop-Keeps ctx c cs base ValueType.i32) λ _.
      then_ ctx c cs base (get_branch_target-Keeps c cs base depth) λ target.
        let (depths, e) = get_elem?-some ctx.function_def.branch_tables table h in
        then_ ctx c cs base (Keeps-lift c cs base _ (in_range-Checks depths e)) λ depths.
          then_ ctx c cs base (check_targets-Keeps target.params depths) λ _.
            then_ ctx c cs base (pop_types-Keeps c cs base target.params)
              λ _. enter_unreachable-Keeps c cs base

  pub br_if-Keeps : (depth : ℕ) → Ok ctx c cs base (C.br_if ctx depth)
  unfolding C.br_if
  br_if-Keeps depth = then_ ctx c cs base (get_branch_target-Keeps c cs base depth) λ target.
      then_ ctx c cs base (drop-Keeps ctx c cs base ValueType.i32) λ _.
        then_ ctx c cs base (pop_types-Keeps c cs base target.params)
          λ _. push_operand_tuple-Keeps c cs base target.params
