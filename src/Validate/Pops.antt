-- ===== src/Validate/Pops.antt =====
-- What `popAndValidateTypeTuple` takes off the operand stack in reachable code.
use wavm.Prelude.{
  suc, ◌≤◌, ◌≡◌, ◌∙◌, ap, sym, subst, refl, true, List, [], ◌∷◌, length, arith, ltb, Bool-cases,
  inl, inr,
}
use wavm.Ir.Types.{ValueType, TypeTuple, is_subtype}
use wavm.Ir.Types.Subtyping.{Below}
use wavm.Validate.Result.{Result, ok, invalid, fault}
use wavm.Validate.State.{
  ControlContext, State, innermost, operand_at, peek_and_validate_operand, pop_and_validate_operand,
  pop_and_validate_types,
}

-- The operands of `actuals` pushed in their order.
abbrev pub push_all : List ValueType → List ValueType → List ValueType
push_all [] stack = stack
push_all (type ∷ actuals) stack = push_all actuals (type ∷ stack)

-- One operand, as it was taken off.
record Popped (c : ControlContext) (cs : List ControlContext) (stack : List ValueType)
    (type actual : ValueType) (t : State) : Type 0 where
  control : t.control_stack ≡ c ∷ cs
  operands : stack ≡ actual ∷ t.stack
  fits : is_subtype actual type ≡ true
  above : c.outer_stack_size ≤ length t.stack

taken :
    (c : ControlContext) (cs : List ControlContext) (a type : ValueType) (stack : List ValueType)
    → ltb c.outer_stack_size (suc (length stack)) ≡ true
    → is_subtype a type ≡ true
    → pop_and_validate_operand type (record { control_stack = c ∷ cs; stack = a ∷ stack })
      ≡ ok (a, record { control_stack = c ∷ cs; stack = stack })
unfolding pop_and_validate_operand peek_and_validate_operand innermost operand_at
taken c cs a type stack h k = ground (arith, h, k)

ok-injective :
    {A : Type 0} {a b : A} {s t : State}
    → ◌≡◌ {A = Result (A × State)} (ok (a, s)) (ok (b, t))
    → (a ≡ b) × (s ≡ t)
ok-injective e = (cc, cc)

pop_and_validate_operand-Popped :
    (c : ControlContext) (cs : List ControlContext) (stack : List ValueType)
    (type actual : ValueType) (t : State)
    → c.is_reachable ≡ true
    → pop_and_validate_operand type (record { control_stack = c ∷ cs; stack = stack })
      ≡ ok (actual, t)
    → Popped c cs stack type actual t
unfolding pop_and_validate_operand peek_and_validate_operand innermost operand_at
pop_and_validate_operand-Popped c cs [] type actual t r e = ground (arith, r, e)
pop_and_validate_operand-Popped c cs (a ∷ stack) type actual t r e =
    elim (Bool-cases (ltb c.outer_stack_size (suc (length stack)))) [
      | inr empty ↦ ground (arith, r, e)
      | inl some_operand ↦ elim (Bool-cases (is_subtype a type)) [
        | inr bad ↦ ground (arith, r, e)
        | inl good ↦
            let (x, y) = ok-injective (sym (taken c cs a type stack some_operand good) ∙ e) in
            let height : c.outer_stack_size ≤ length stack = ground arith in
            subst2_popped x y
              (record { control = refl; operands = refl; fits = good; above = height })
      ]
    ]
  where
    subst2_popped :
        {t : State}
        → a ≡ actual
        → record { control_stack = c ∷ cs; stack = stack } ≡ t
        → Popped c cs (a ∷ stack) type a (record { control_stack = c ∷ cs; stack = stack })
        → Popped c cs (a ∷ stack) type actual t
    subst2_popped x y p =
        subst (λ u. Popped c cs (a ∷ stack) type actual u) y
          (subst
            (λ b. Popped c cs (a ∷ stack) type b (record { control_stack = c ∷ cs; stack = stack }))
            x p)

-- A tuple of operands, as it was taken off.
pub record TakenOff (c : ControlContext) (cs : List ControlContext) (types : TypeTuple)
    (stack : List ValueType) (t : State) : Type 0 where
  pub actuals : List ValueType
  pub fit : Below actuals types
  pub operands : stack ≡ push_all actuals t.stack
  pub control : t.control_stack ≡ c ∷ cs
  pub above : c.outer_stack_size ≤ length t.stack

-- What follows the operands after the first one.
abbrev after_rest : ValueType → Result (Unit {0} × State) → Result (Unit {0} × State)
after_rest type (ok (a, s)) = elim (pop_and_validate_operand type s) [
  | ok (b, s') ↦ ok (tt, s')
  | invalid x ↦ invalid x
  | fault ↦ fault
]
after_rest type (invalid x) = invalid x
after_rest type fault = fault

one_more :
    (c : ControlContext) (cs : List ControlContext) (type : ValueType) (types : TypeTuple)
    (stack : List ValueType) (u t : State)
    → c.is_reachable ≡ true
    → after_rest type (ok (tt, u)) ≡ ok (tt, t)
    → TakenOff c cs types stack u
    → TakenOff c cs (type ∷ types) stack t
one_more c cs type types stack u t r f k =
    go (pop_and_validate_operand type (record { control_stack = c ∷ cs; stack = u.stack })) refl
      (rw k.control at f)
  where
    go :
        (q : Result (ValueType × State))
        → pop_and_validate_operand type (record { control_stack = c ∷ cs; stack = u.stack }) ≡ q
        → ◌≡◌ {A = Result (Unit {0} × State)}
            (elim q [ ok (b, s') ↦ ok (tt, s') | invalid x ↦ invalid x | fault ↦ fault ])
            (ok (tt, t))
        → TakenOff c cs (type ∷ types) stack t
    go (ok (b, v)) e g =
        let same = (ok-injective g).1 in
        let p = pop_and_validate_operand-Popped c cs u.stack type b v r e in
        subst (λ w. TakenOff c cs (type ∷ types) stack w) same
          (record {
            actuals = b ∷ k.actuals;
            fit = (p.fits, k.fit);
            operands = k.operands ∙ ap (push_all k.actuals) p.operands;
            control = p.control;
            above = p.above;
          })
    go (invalid x) e g = cc
    go fault e g = cc

-- In reachable code, operands that are validated against a tuple of types and taken off the stack
-- stood on top of it in the order of the types, the last one at the top, and each was a subtype of
-- its type. The control structures stay, and no operand of an enclosing structure is taken.
pub pop_and_validate_types_lem :
    (c : ControlContext) (cs : List ControlContext) (types : TypeTuple) (stack : List ValueType)
    (t : State)
    → c.is_reachable ≡ true
    → c.outer_stack_size ≤ length stack
    → pop_and_validate_types types (record { control_stack = c ∷ cs; stack = stack }) ≡ ok (tt, t)
    → TakenOff c cs types stack t
unfolding pop_and_validate_types
pop_and_validate_types_lem c cs [] stack t r h e =
    let x = (ok-injective e).1 in
    record {
      actuals = [];
      fit = tt;
      operands = ap (λ u. u.stack) x;
      control = ap (λ u. u.control_stack) (sym x);
      above = subst (λ u. c.outer_stack_size ≤ length u.stack) x h;
    }
pop_and_validate_types_lem c cs (type ∷ types) stack t r h e =
    go (pop_and_validate_types types (record { control_stack = c ∷ cs; stack = stack })) e
      (λ u. pop_and_validate_types_lem c cs types stack u r h)
  where
    go :
        (q : Result (Unit {0} × State))
        → after_rest type q ≡ ok (tt, t)
        → ((u : State) → q ≡ ok (tt, u) → TakenOff c cs types stack u)
        → TakenOff c cs (type ∷ types) stack t
    go (ok (a, u)) f ih = one_more c cs type types stack u t r f (ih u refl)
    go (invalid x) f ih = cc
    go fault f ih = cc
