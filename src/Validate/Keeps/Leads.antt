-- ===== src/Validate/Keeps/Leads.antt =====
-- Steps that open a control structure, or close the innermost one.
use wavm.Prelude.{◌≡◌, refl, ap, sym, subst, ◌∙◌, true, List, [], ◌∷◌, ◌++◌, length}
use wavm.Ir.Types.{ValueType, TypeTuple}
use wavm.Validate.Keeps.{SameFrame, SameFrame-refl, Safe, Within, Keeps}
use wavm.Validate.Result.{Result, ok, invalid, fault}
use wavm.Validate.State.{
  ControlType, ControlContext, State, V, ◌>>=◌, ◌>>◌, push_operand_tuple, push_control_stack,
}

-- Operands pushed one after the other, the last one on top.
abbrev pub pushed : TypeTuple → List ValueType → List ValueType
pushed [] stack = stack
pushed (type ∷ types) stack = pushed types (type ∷ stack)

pub push_operand_tuple-pushed :
    (types : TypeTuple) (s : State)
    → push_operand_tuple types s ≡ ok (tt, record s { stack = pushed types s.stack })
unfolding push_operand_tuple
push_operand_tuple-pushed [] s = refl
push_operand_tuple-pushed (type ∷ types) s =
    push_operand_tuple-pushed types (record s { stack = type ∷ s.stack })

pub pushed-append :
    (types : TypeTuple) (own base : List ValueType)
    → pushed types (own ++ base) ≡ pushed types own ++ base
pushed-append [] own base = refl
pushed-append (type ∷ types) own base = pushed-append types (type ∷ own) base

-- Assignments to `type` and `isReachable` leave the rest of a frame alone.
pub retyped :
    {c : ControlContext} (d : ControlContext)
    → SameFrame c d
    → (type : ControlType) → SameFrame c (record d { type = type; is_reachable = true })
retyped d same type = record {
  outer = same.outer;
  params = same.params;
  results = same.results;
  else_params = same.else_params;
}

-- A new innermost structure stands around the operands that were there.
pub record Opened (c : ControlContext) (cs : List ControlContext) (base : List ValueType)
    (s : State) : Type 0 where
  pub inner : ControlContext
  pub own : List ValueType
  pub frame : ControlContext
  pub same : SameFrame c inner
  pub height : c.outer_stack_size ≡ length base
  pub opened : Within frame (inner ∷ cs) (own ++ base) s

module _ (c : ControlContext) (cs : List ControlContext) (base : List ValueType) where
  -- Where a step leads to, other than back inside the structure.
  pub record Leads (Q : State → Type 0) (m : V (Unit {0})) : Type 0 where
    pub run : (s : State) → Within c cs base s → Safe (λ _ s'. Q s') (m s)

  pub Leads-intro :
      {Q : State → Type 0} {m : V (Unit {0})}
      → ((inner : ControlContext) (own : List ValueType)
          → SameFrame c inner
          → c.outer_stack_size ≡ length base
          → Safe (λ _ s'. Q s') (m (record { control_stack = inner ∷ cs; stack = own ++ base })))
      → Leads Q m
  Leads-intro {Q = Q} {m = m} h = record {
    run = λ s w.
        let e : s ≡ record { control_stack = w.inner ∷ cs; stack = w.own ++ base } =
          λ i. record { control_stack = w.control i; stack = w.operands i } in
        subst (λ s. Safe (λ _ s'. Q s') (m s)) (sym e) (h w.inner w.own w.same w.height);
  }

  Safe-Leads :
      {A : Type 0} (P : A → Type 0) (Q : State → Type 0) (f : A → V (Unit {0}))
      (r : Result (A × State))
      → Safe (λ a s'. P a × Within c cs base s') r
      → ((a : A) → P a → Leads Q (f a))
      → Safe (λ _ s'. Q s') (elim r [ ok (a, s') ↦ f a s' | invalid e ↦ invalid e | fault ↦ fault ])
  Safe-Leads P Q f (ok (a, s')) h k = (k a h.0).run s' h.1
  Safe-Leads P Q f (invalid e) h k = tt
  Safe-Leads P Q f fault h k = h

  pub Leads-bind :
      {A : Type 0} {P : A → Type 0} {Q : State → Type 0} {m : V A} {f : A → V (Unit {0})}
      → Keeps c cs base P m
      → ((a : A) → P a → Leads Q (f a))
      → Leads Q (m >>= f)
  Leads-bind {P = P} {Q = Q} {m = m} {f = f} h k = record {
    run = λ s w. Safe-Leads P Q f (m s) (h.run s w) k;
  }

  -- The last two steps of every operator that opens a structure.
  pub open-Leads :
      (type : ControlType) (params results else_params operands : TypeTuple)
      → Leads
          (Opened c cs base)
          (push_control_stack type params results else_params >> push_operand_tuple operands)
  unfolding push_control_stack
  open-Leads type params results else_params operands = record {
    run = λ s w.
        let frame : ControlContext = record {
          type = type;
          outer_stack_size = length s.stack;
          params = params;
          results = results;
          is_reachable = true;
          else_params = else_params;
        } in
        rw push_operand_tuple-pushed (record {
          inner = w.inner;
          own = w.own;
          frame = frame;
          same = w.same;
          height = w.height;
          opened = record {
            inner = frame;
            own = pushed operands [];
            control = ap (λ l. frame ∷ l) w.control;
            operands = ap (pushed operands) w.operands ∙ pushed-append operands [] (w.own ++ base);
            same = SameFrame-refl frame;
            height = ap length w.operands;
          };
        });
  }
