-- ===== src/Validate/Keeps/Structure.antt =====
-- The operators that open, divide and close control structures.
use wavm.Prelude.{ℕ, true, not, ◌||◌, List}
use wavm.Ir.Operators.{BlockType}
use wavm.Ir.Types.{FunctionType, ValueType, TypeTuple}
use wavm.Validate.Control as C
use wavm.Validate.Keeps.{
  Keeps, Keeps-bind, Keeps-pure, Keeps-throw, Keeps-lift, Keeps-if, innermost-Keeps,
  set_innermost-Keeps, push_operand_tuple-Keeps, validate_stack_empty-Keeps,
}
use wavm.Validate.Keeps.Operands.{pop_types-Keeps}
use wavm.Validate.Keeps.References.{IsIndexed, validate_block_type-Checks}
use wavm.Validate.References.{validate_block_type}
use wavm.Validate.State.{
  ControlType, ControlContext, Context, V, ◌>>=◌, ◌>>◌, lift, pop_and_validate_types,
}
use wavm.Validate.Keeps.Steps.{then_, drop-Keeps, feature-Keeps, exception_type-Keeps}
use wavm.Validate.Keeps.Leads.{retyped, Opened, Leads, Leads-bind, open-Leads}

module _ (c : ControlContext) (cs : List ControlContext) (base : List ValueType) where
  module _ (ctx : Context) (v : IsIndexed ctx.ir) where
    opening :
        (type : BlockType) {f : FunctionType → V (Unit {0})}
        → ((t : FunctionType) → Leads c cs base (Opened c cs base) (f t))
        → Leads c cs base (Opened c cs base) (lift (validate_block_type ctx.ir type) >>= f)
    opening type h =
        Leads-bind c cs base (Keeps-lift c cs base _ (validate_block_type-Checks ctx.ir type v))
          λ t _. h t

    arguments :
        (types : TypeTuple) {m : V (Unit {0})}
        → Leads c cs base (Opened c cs base) m
        → Leads c cs base (Opened c cs base) (pop_and_validate_types types >> m)
    arguments types h = Leads-bind c cs base (pop_types-Keeps c cs base types) λ _ _. h

    pub block-Opens : (type : BlockType) → Leads c cs base (Opened c cs base) (C.block ctx type)
    unfolding C.block
    block-Opens type = opening type λ t. arguments t.params (open-Leads c cs base _ _ _ _ t.params)

    pub loop-Opens : (type : BlockType) → Leads c cs base (Opened c cs base) (C.loop ctx type)
    unfolding C.loop
    loop-Opens type = opening type λ t. arguments t.params (open-Leads c cs base _ _ _ _ t.params)

    pub if-Opens : (type : BlockType) → Leads c cs base (Opened c cs base) (C.if_ ctx type)
    unfolding C.if_
    if-Opens type = opening type λ t.
        Leads-bind c cs base (drop-Keeps ctx c cs base ValueType.i32)
          λ _ _. arguments t.params (open-Leads c cs base _ _ _ _ t.params)

    pub try-Opens : (type : BlockType) → Leads c cs base (Opened c cs base) (C.try_ ctx type)
    unfolding C.try_
    try-Opens type = opening type λ t.
        Leads-bind c cs base (feature-Keeps ctx c cs base _)
          λ _ _. arguments t.params (open-Leads c cs base _ _ _ _ t.params)

    pub else-Keeps : Keeps c cs base (λ _. Unit {0}) (C.else_ ctx)
    unfolding C.else_
    else-Keeps = Keeps-bind c cs base (innermost-Keeps c cs base) λ d same.
        then_ ctx c cs base
          (Keeps-if c cs base (not (C.control_eq d.type ControlType.if_then))
            (Keeps-throw c cs base _) (Keeps-pure c cs base tt tt))
          λ _. then_ ctx c cs base (pop_types-Keeps c cs base d.results) λ _.
            then_ ctx c cs base (validate_stack_empty-Keeps c cs base) λ _.
              then_ ctx c cs base
                (set_innermost-Keeps c cs base
                  (record d { type = ControlType.if_else; is_reachable = true })
                  (retyped d same ControlType.if_else))
                λ _. push_operand_tuple-Keeps c cs base d.else_params

    catch-Keeps : Keeps c cs base (λ _. Unit {0}) (C.validate_catch ctx)
    unfolding C.validate_catch
    catch-Keeps = Keeps-bind c cs base (innermost-Keeps c cs base) λ d same.
        then_ ctx c cs base (pop_types-Keeps c cs base d.results) λ _.
          then_ ctx c cs base (validate_stack_empty-Keeps c cs base) λ _.
            Keeps-if c cs base
              (C.control_eq d.type ControlType.try_ || C.control_eq d.type ControlType.catch_)
              (set_innermost-Keeps c cs base
                (record d { type = ControlType.catch_; is_reachable = true })
                (retyped d same ControlType.catch_))
              (Keeps-throw c cs base _)

    pub catch_-Keeps : (i : ℕ) → Keeps c cs base (λ _. Unit {0}) (C.catch_ ctx i)
    unfolding C.catch_
    catch_-Keeps i = then_ ctx c cs base (feature-Keeps ctx c cs base _) λ _.
        then_ ctx c cs base (exception_type-Keeps ctx c cs base i) λ type.
          then_ ctx c cs base catch-Keeps λ _. push_operand_tuple-Keeps c cs base type.params

    pub catch_all-Keeps : Keeps c cs base (λ _. Unit {0}) (C.catch_all ctx)
    unfolding C.catch_all
    catch_all-Keeps = then_ ctx c cs base (feature-Keeps ctx c cs base _) λ _. catch-Keeps
