-- ===== src/Validate/Keeps/End.antt =====
-- `end`: what it leaves of the two stacks.
use wavm.Prelude.{◌≡◌, not, ◌&&◌, List, [], ◌∷◌, ◌++◌, length, length-append, arith}
use wavm.Ir.Types.{ValueType, TypeTuple, tuple_eq}
use wavm.Validate.Control as C
use wavm.Validate.Keeps.{SameFrame, Safe, Keeps-pure, Keeps-throw, Keeps-if, innermost-Keeps}
use wavm.Validate.Keeps.Operands.{pop_types-Keeps}
use wavm.Validate.State.{
  ControlType, ControlContext, Context, State, V, ◌>>◌, pop_control,
  validate_stack_empty_at_end_of_control_structure,
}
use wavm.Validate.Keeps.Leads.{pushed, push_operand_tuple-pushed, Leads, Leads-bind, Leads-intro}

-- What `end` leaves of the operands: the results on those below the structure. The results of the
-- function's body itself are not pushed.
abbrev pub after_end : List ControlContext → TypeTuple → List ValueType → List ValueType
after_end [] results below = below
after_end (d ∷ ds) results below = pushed results below

pub record Closed (c : ControlContext) (cs : List ControlContext) (base : List ValueType)
    (s : State) : Type 0 where
  pub control : s.control_stack ≡ cs
  pub operands : s.stack ≡ after_end cs c.results base

abbrev close : Context → TypeTuple → V (Unit {0})
close ctx results =
    validate_stack_empty_at_end_of_control_structure
    >> (pop_control >> C.push_results_of_block ctx results)

close_at :
    (ctx : Context) (c inner : ControlContext) (cs : List ControlContext)
    (own base : List ValueType)
    → SameFrame c inner
    → c.outer_stack_size ≡ length base
    → Safe
        (λ _ s'. Closed c cs base s')
        (close ctx c.results (record { control_stack = inner ∷ cs; stack = own ++ base }))
unfolding validate_stack_empty_at_end_of_control_structure pop_control
close_at ctx c inner [] [] base same h = ground (arith, same.outer)
close_at ctx c inner (d ∷ ds) [] base same h = ground (
  arith,
  same.outer,
  push_operand_tuple-pushed c.results (record { control_stack = d ∷ ds; stack = base }),
)
close_at ctx c inner cs (x ∷ own) base same h = ground (arith, same.outer, length-append own base)

module _ (ctx : Context) (c : ControlContext) (cs : List ControlContext)
    (base : List ValueType) where
  close-Leads :
      (d : ControlContext)
      → SameFrame c d
      → Leads c cs base (Closed c cs base) (close ctx d.results)
  close-Leads d same =
      Leads-intro c cs base
        λ inner own same' h. rw same.results (close_at ctx c inner cs own base same' h)

  -- `end` closes the innermost structure: the structures around it are what they were, and its
  -- results stand on the operands that were below it. It fails no assertion.
  pub end-Closes : Leads c cs base (Closed c cs base) (C.end ctx)
  unfolding C.end
  end-Closes = Leads-bind c cs base (innermost-Keeps c cs base) λ d same.
      Leads-bind c cs base {P = λ _. Unit {0}}
        (Keeps-if c cs base (C.control_eq d.type ControlType.try_) (Keeps-throw c cs base _) (
          Keeps-if c cs base
            (C.control_eq d.type ControlType.if_then && not (tuple_eq d.results d.else_params))
            (Keeps-throw c cs base _) (Keeps-pure c cs base tt tt)))
        λ _ _. Leads-bind c cs base (pop_types-Keeps c cs base d.results) λ _ _. close-Leads d same
