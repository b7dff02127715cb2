-- ===== src/Validate/Keeps/Operands.antt =====
-- What popping and peeking at operands, branch targets and locals keep.
use wavm.Prelude.{
  ℕ, ◌+◌, ◌≡◌, false, List, [], ◌∷◌, ◌++◌, length, arith, ltb, leb, get_elem?, get_elem?-some,
  Bool-cases, inl, inr, if◌then◌else◌, some,
}
use wavm.Ir.Types.{ValueType, TypeTuple}
use wavm.Validate.Keeps.{
  Safe, Checks, SameFrame, Within, Keeps, Keeps-intro, within, Keeps-bind, Keeps-pure,
  innermost-Keeps,
}
use wavm.Validate.Result.{ok}
use wavm.Validate.State.{
  ControlContext, Context, get_branch_target_by_depth, operand_at, peek_and_validate_operand,
  pop_and_validate_operand, pop_and_validate_types, peek_and_validate_types, validate_local_index,
  pop_back,
}

-- A read after its range check does not fault.
pub checked_read :
    {A : Type 0} (xs : List A) (i : ℕ)
    → leb (length xs) i ≡ false
    → (a : A) × (get_elem? xs i ≡ some a)
checked_read xs i h = get_elem?-some xs i (ground arith)

operand_at-Checks :
    (depth : ℕ) (c : ControlContext) (stack : List ValueType)
    → Checks (λ _. Unit {0}) (operand_at depth c stack)
unfolding operand_at
operand_at-Checks depth c stack =
    elim (Bool-cases (ltb (c.outer_stack_size + depth) (length stack))) [
      | inl here ↦ let (a, e) = get_elem?-some stack depth (ground arith) in rw (here, e) tt
      | inr below ↦ ground arith
    ]

module _ (c : ControlContext) (cs : List ControlContext) (base : List ValueType) where
  pub peek-Keeps :
      (depth : ℕ) (type : ValueType)
      → Keeps c cs base (λ _. Unit {0}) (peek_and_validate_operand depth type)
  unfolding peek_and_validate_operand
  peek-Keeps depth type = Keeps-intro c cs base λ inner own same h.
      ground (arith, operand_at-Checks depth inner (own ++ base), within c cs base inner own same h)

  -- After a successful look at depth 0 the top operand is taken off, unless there is none.
  pub pop-Keeps :
      (type : ValueType) → Keeps c cs base (λ _. Unit {0}) (pop_and_validate_operand type)
  unfolding pop_and_validate_operand
  pop-Keeps type = Keeps-bind c cs base (peek-Keeps 0 type) λ actual _.
      Keeps-bind c cs base (innermost-Keeps c cs base) λ d same. pop_back-Keeps actual d same
    where
      pop_back-Keeps :
          (actual : ValueType) (d : ControlContext)
          → SameFrame c d
          → Keeps c cs base
              (λ _. Unit {0})
              (λ s. ok (
                actual,
                (if ltb d.outer_stack_size (length s.stack)
                    then record s { stack = pop_back s.stack }
                    else s),
              ))
      pop_back-Keeps actual d same = Keeps-intro c cs base go
        where
          go :
              (inner : ControlContext) (own : List ValueType)
              → SameFrame c inner
              → c.outer_stack_size ≡ length base
              → Safe
                  (λ a s'. Unit {0} × Within c cs base s')
                  (ok (
                    actual,
                    (if ltb d.outer_stack_size (length (own ++ base))
                        then record { control_stack = inner ∷ cs; stack = pop_back (own ++ base) }
                        else record { control_stack = inner ∷ cs; stack = own ++ base }),
                  ))
          go inner [] same' h =
              let e : ltb d.outer_stack_size (length base) ≡ false = ground (arith, same.outer) in
              rw e (tt, within c cs base inner [] same' h)
          go inner (x ∷ own) same' h =
              ground (
                arith,
                within c cs base inner own same' h,
                within c cs base inner (x ∷ own) same' h,
              )

  pub pop_types-Keeps :
      (types : TypeTuple) → Keeps c cs base (λ _. Unit {0}) (pop_and_validate_types types)
  unfolding pop_and_validate_types
  pop_types-Keeps [] = Keeps-pure c cs base tt tt
  pop_types-Keeps (type ∷ types) =
      Keeps-bind c cs base (pop_types-Keeps types)
        λ _ _. Keeps-bind c cs base (pop-Keeps type) λ _ _. Keeps-pure c cs base tt tt

  pub peek_types-Keeps :
      (types : TypeTuple) → Keeps c cs base (λ _. Unit {0}) (peek_and_validate_types types)
  unfolding peek_and_validate_types
  peek_types-Keeps [] = Keeps-pure c cs base tt tt
  peek_types-Keeps (type ∷ types) =
      Keeps-bind c cs base (peek-Keeps (length types) type) λ _ _. peek_types-Keeps types

  pub get_branch_target-Keeps :
      (depth : ℕ) → Keeps c cs base (λ _. Unit {0}) (get_branch_target_by_depth depth)
  unfolding get_branch_target_by_depth
  get_branch_target-Keeps depth = Keeps-intro c cs base λ inner own same h.
      elim (Bool-cases (leb (length (inner ∷ cs)) depth)) [
        | inl out ↦ ground arith
        | inr low ↦
            let (d, e) = checked_read (inner ∷ cs) depth low in
            ground (arith, e, within c cs base inner own same h)
      ]

  pub validate_local_index-Keeps :
      (ctx : Context) (i : ℕ) → Keeps c cs base (λ _. Unit {0}) (validate_local_index ctx i)
  unfolding validate_local_index
  validate_local_index-Keeps ctx i = Keeps-intro c cs base λ inner own same h.
      elim (Bool-cases (leb (length ctx.locals) i)) [
        | inl out ↦ rw out tt
        | inr low ↦
            let (d, e) = checked_read ctx.locals i low in
            rw (low, e) (tt, within c cs base inner own same h)
      ]
