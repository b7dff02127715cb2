-- ===== src/Validate/State.antt =====
-- The state of `FunctionValidationContext` in Lib/IR/Validate.cpp, and its operand and control
-- stacks. Both vectors are lists here, the last element of the vector first, so that `back()` is
-- the head, and `stack[stack.size() - depth - 1]` is the element at `depth`.
use wavm.Prelude.{
  ℕ, ◌+◌, ◌-◌, Bool, true, false, not, List, [], ◌∷◌, ◌++◌, ltb, leb, ◌==◌, length, get_elem?, drop,
  replicate, if◌then◌else◌,
}
use wavm.Ir.Module.{Module, FunctionDef}
use wavm.Ir.Types.{ValueType, TypeTuple, FunctionType, is_subtype}
use wavm.Validate.References.{Declared}
use wavm.Validate.Result.{ValidationException, Result, ok, invalid, fault, validate_index, in_range}

pub data ControlType : Type 0 where
  function block if_then if_else loop try_ catch_ : ControlType

pub record ControlContext : Type 0 where
  pub type : ControlType
  pub outer_stack_size : ℕ
  pub params : TypeTuple
  pub results : TypeTuple
  pub is_reachable : Bool
  pub else_params : TypeTuple

-- What stays the same while a body is validated.
pub record Context : Type 0 where
  pub ir : Module
  pub function_def : FunctionDef
  pub function_type : FunctionType
  pub declared : Declared
  pub locals : List ValueType

pub record State : Type 0 where
  pub control_stack : List ControlContext
  pub stack : List ValueType

-- A step of the validator: it reads and writes the stacks, or throws.
abbrev pub V : Type 0 → Type 0
V A = State → Result (A × State)

abbrev pub pure : {A : Type 0} → A → V A
pure a s = ok (a, s)

infixl 5 ◌>>=◌ ◌>>◌
abbrev pub ◌>>=◌ : {A B : Type 0} → V A → (A → V B) → V B
◌>>=◌ m f s = elim (m s) [ ok (a, s') ↦ f a s' | invalid e ↦ invalid e | fault ↦ fault ]

abbrev pub ◌>>◌ : {B : Type 0} → V (Unit {0}) → V B → V B
m >> k = m >>= λ _. k

-- A check that does not touch the stacks.
abbrev pub lift : {A : Type 0} → Result A → V A
lift r s = elim r [ ok a ↦ ok (a, s) | invalid e ↦ invalid e | fault ↦ fault ]

abbrev pub throw : {A : Type 0} → ValidationException → V A
throw e s = invalid e

-- `controlStack.back()`, after the assertion that there is one.
unfoldable pub innermost : V ControlContext
innermost s = elim s.control_stack [ [] ↦ fault | c ∷ cs ↦ ok (c, s) ]

abbrev set_innermost_in : ControlContext → List ControlContext → List ControlContext
set_innermost_in c [] = []
set_innermost_in c (d ∷ cs) = c ∷ cs

-- An assignment to members of `controlStack.back()`.
unfoldable pub set_innermost : ControlContext → V (Unit {0})
set_innermost c s = ok (tt, record s { control_stack = set_innermost_in c s.control_stack })

unfoldable pub pop_control : V (Unit {0})
pop_control s = elim s.control_stack [
  | [] ↦ fault
  | c ∷ cs ↦ ok (tt, record s { control_stack = cs })
]

unfoldable pub push_operand : ValueType → V (Unit {0})
push_operand type s = ok (tt, record s { stack = type ∷ s.stack })

unfoldable pub push_operand_tuple : TypeTuple → V (Unit {0})
push_operand_tuple [] s = ok (tt, s)
push_operand_tuple (type ∷ types) s = push_operand_tuple types (record s { stack = type ∷ s.stack })

unfoldable pub push_control_stack : ControlType → TypeTuple → TypeTuple → TypeTuple → V (Unit {0})
push_control_stack type params results else_params s = ok (
  tt,
  record s {
    control_stack =
        record {
          type = type;
          outer_stack_size = length s.stack;
          params = params;
          results = results;
          is_reachable = true;
          else_params = else_params;
        }
        ∷ s.control_stack;
  },
)

unfoldable pub validate_stack_empty_at_end_of_control_structure : V (Unit {0})
unfolding innermost
validate_stack_empty_at_end_of_control_structure = do
  c ← innermost
  λ s.
      if not (length s.stack == c.outer_stack_size)
      then invalid ValidationException.stack_not_empty
      else ok (tt, s)

-- `vector::resize`: it drops the last elements, or appends zeroes, which stand for `none`.
abbrev pub resize : ℕ → List ValueType → List ValueType
resize n stack =
    if leb n (length stack)
    then drop (length stack - n) stack
    else replicate (n - length stack) ValueType.none ++ stack

unfoldable pub enter_unreachable : V (Unit {0})
unfolding innermost set_innermost
enter_unreachable = do
  c ← innermost
  λ s. ok (tt, record s { stack = resize c.outer_stack_size s.stack })
  set_innermost (record c { is_reachable = false })

-- `validateBranchDepth` tests the depth a second time, to no effect.
unfoldable pub get_branch_target_by_depth : ℕ → V ControlContext
get_branch_target_by_depth depth = do
  λ s. lift (validate_index depth (length s.control_stack)) s
  λ s. lift (in_range (get_elem? s.control_stack depth)) s

unfoldable pub validate_local_index : Context → ℕ → V ValueType
validate_local_index ctx i = do
  lift (validate_index i (length ctx.locals))
  lift (in_range (get_elem? ctx.locals i))

-- The type at a depth; `none`, the bottom type, below the operands of unreachable code.
unfoldable pub operand_at : ℕ → ControlContext → List ValueType → Result ValueType
operand_at depth c stack =
    if ltb (c.outer_stack_size + depth) (length stack)
    then in_range (get_elem? stack depth)
    else (if not c.is_reachable then ok ValueType.none else invalid ValidationException.empty_stack)

unfoldable pub peek_and_validate_operand : ℕ → ValueType → V ValueType
unfolding innermost operand_at
peek_and_validate_operand depth expected = do
  c ← innermost
  actual ← λ s. lift (operand_at depth c s.stack) s
  λ s.
      if not (is_subtype actual expected)
      then invalid ValidationException.type_mismatch
      else ok (actual, s)

abbrev pub pop_back : List ValueType → List ValueType
pop_back [] = []
pop_back (type ∷ stack) = stack

unfoldable pub pop_and_validate_operand : ValueType → V ValueType
unfolding peek_and_validate_operand innermost
pop_and_validate_operand expected = do
  actual ← peek_and_validate_operand 0 expected
  c ← innermost
  λ s. ok (
    actual,
    (if ltb c.outer_stack_size (length s.stack) then record s { stack = pop_back s.stack } else s),
  )

-- `popAndValidateOperandArray`: the last expected type is popped first.
unfoldable pub pop_and_validate_types : TypeTuple → V (Unit {0})
unfolding pop_and_validate_operand
pop_and_validate_types [] = pure tt
pop_and_validate_types (type ∷ types) =
    let rest = pop_and_validate_types types in
    rest >> (pop_and_validate_operand type >>= λ _. pure tt)

-- `peekAndValidateTypeTuple`, from an operand on; the last one is at depth 0.
unfoldable pub peek_and_validate_types : TypeTuple → V (Unit {0})
unfolding peek_and_validate_operand
peek_and_validate_types [] = pure tt
peek_and_validate_types (type ∷ types) =
    let rest = peek_and_validate_types types in
    peek_and_validate_operand (length types) type >>= λ _. rest
