-- ===== src/Validate/Keeps.antt =====
-- A logic for steps of the validator: what a step keeps of the stacks while one control
-- structure is open, and that no assertion of it fails.
pub mod Operands
pub mod References
pub mod Immediates
pub mod Steps
pub mod Branches
pub mod Parametric
pub mod Leads
pub mod Structure
pub mod End
use wavm.Prelude.{
  ℕ, zero, suc, ◌+◌, ◌-◌, ◌≤◌, ◌<◌, ◌≡◌, refl, Bool, true, false, List, [], ◌∷◌, ◌++◌, length,
  length-append, arith, ap, sym, subst, ltb, leb, ◌==◌, drop, get_elem?, get_elem?-some, Bool-cases,
  inl, inr, if◌then◌else◌,
}
use wavm.Ir.Types.{ValueType, TypeTuple, is_subtype}
use wavm.Validate.Result.{Result, ok, invalid, fault, ValidationException, validate_index, in_range}
use wavm.Validate.State.{
  ControlContext, Context, State, V, pure, ◌>>=◌, ◌>>◌, lift, throw, innermost, set_innermost,
  push_operand, push_operand_tuple, validate_stack_empty_at_end_of_control_structure,
  enter_unreachable, get_branch_target_by_depth, operand_at, peek_and_validate_operand,
  pop_and_validate_operand, pop_and_validate_types, peek_and_validate_types, validate_local_index,
  resize,
}

-- An outcome that is no fault, and that holds of the value and the state if there is one.
abbrev pub Safe : {A : Type 0} → (A → State → Type 0) → Result (A × State) → Type 0
Safe P (ok (a, s)) = P a s
Safe P (invalid e) = Unit
Safe P fault = ⊥

-- An outcome of a check that is no fault.
abbrev pub Checks : {A : Type 0} → (A → Type 0) → Result A → Type 0
Checks P (ok a) = P a
Checks P (invalid e) = Unit
Checks P fault = ⊥

-- Two contexts of one control structure: all but `type` and `is_reachable` agree.
pub record SameFrame (c d : ControlContext) : Type 0 where
  pub outer : d.outer_stack_size ≡ c.outer_stack_size
  pub params : d.params ≡ c.params
  pub results : d.results ≡ c.results
  pub else_params : d.else_params ≡ c.else_params

pub SameFrame-refl : (c : ControlContext) → SameFrame c c
SameFrame-refl c = record { outer = refl; params = refl; results = refl; else_params = refl }

-- The control structure `c` is the innermost one, `cs` are those around it, and `base` are the
-- operands below it.
pub record Within (c : ControlContext) (cs : List ControlContext) (base : List ValueType)
    (s : State) : Type 0 where
  pub inner : ControlContext
  pub own : List ValueType
  pub control : s.control_stack ≡ inner ∷ cs
  pub operands : s.stack ≡ own ++ base
  pub same : SameFrame c inner
  pub height : c.outer_stack_size ≡ length base

drop-append {ℓ} : {A : Type ℓ} (xs ys : List A) → drop (length xs) (xs ++ ys) ≡ ys
drop-append [] ys = refl
drop-append (x ∷ xs) ys = drop-append xs ys

resize-append : (own base : List ValueType) → resize (length base) (own ++ base) ≡ base
resize-append own base =
    let long = length-append own base in
    let eq : length (own ++ base) - length base ≡ length own = omega arith in
    let fits : leb (length base) (length (own ++ base)) ≡ true = ground (arith, long) in
    rw (fits, eq) (drop-append own base)

-- What the steps of one control structure keep. `P` holds of the value that a step returns.
module _ (c : ControlContext) (cs : List ControlContext) (base : List ValueType) where
  abbrev inside : ControlContext → List ValueType → State
  inside inner own = record { control_stack = inner ∷ cs; stack = own ++ base }

  pub record Keeps {A : Type 0} (P : A → Type 0) (m : V A) : Type 0 where
    pub run : (s : State) → Within c cs base s → Safe (λ a s'. P a × Within c cs base s') (m s)

  -- The states of `Within` are written out.
  pub Keeps-intro :
      {A : Type 0} {P : A → Type 0} {m : V A}
      → ((inner : ControlContext) (own : List ValueType)
          → SameFrame c inner
          → c.outer_stack_size ≡ length base
          → Safe (λ a s'. P a × Within c cs base s') (m (inside inner own)))
      → Keeps P m
  Keeps-intro {P = P} {m = m} h = record {
    run = λ s w.
        let e : s ≡ inside w.inner w.own =
          λ i. record { control_stack = w.control i; stack = w.operands i } in
        subst (λ s. Safe (λ a s'. P a × Within c cs base s') (m s)) (sym e)
          (h w.inner w.own w.same w.height);
  }

  pub within :
      (inner : ControlContext) (own : List ValueType)
      → SameFrame c inner
      → c.outer_stack_size ≡ length base
      → Within c cs base (inside inner own)
  within inner own same height = record {
    inner = inner;
    own = own;
    control = refl;
    operands = refl;
    same = same;
    height = height;
  }

  Safe-bind :
      {A B : Type 0} (P : A → Type 0) (Q : B → Type 0) (f : A → V B) (r : Result (A × State))
      → Safe (λ a s'. P a × Within c cs base s') r
      → ((a : A) → P a → Keeps Q (f a))
      → Safe
          (λ b s'. Q b × Within c cs base s')
          (elim r [ ok (a, s') ↦ f a s' | invalid e ↦ invalid e | fault ↦ fault ])
  Safe-bind P Q f (ok (a, s')) h k = (k a h.0).run s' h.1
  Safe-bind P Q f (invalid e) h k = tt
  Safe-bind P Q f fault h k = h

  pub Keeps-bind :
      {A B : Type 0} {P : A → Type 0} {Q : B → Type 0} {m : V A} {f : A → V B}
      → Keeps P m
      → ((a : A) → P a → Keeps Q (f a))
      → Keeps Q (m >>= f)
  Keeps-bind {P = P} {Q = Q} {m = m} {f = f} h k = record {
    run = λ s w. Safe-bind P Q f (m s) (h.run s w) k;
  }

  pub Keeps-pure : {A : Type 0} {P : A → Type 0} (a : A) → P a → Keeps P (pure a)
  Keeps-pure a p = record { run = λ s w. (p, w) }

  pub Keeps-throw : {A : Type 0} {P : A → Type 0} (e : ValidationException) → Keeps P (throw e)
  Keeps-throw e = record { run = λ s w. tt }

  lift-Safe :
      {A : Type 0} (P : A → Type 0) (r : Result A) (s : State)
      → Checks P r
      → Within c cs base s
      → Safe (λ a s'. P a × Within c cs base s') (lift r s)
  lift-Safe P (ok a) s h w = (h, w)
  lift-Safe P (invalid e) s h w = tt
  lift-Safe P fault s h w = h

  pub Keeps-lift : {A : Type 0} {P : A → Type 0} (r : Result A) → Checks P r → Keeps P (lift r)
  Keeps-lift {P = P} r h = record { run = λ s w. lift-Safe P r s h w }

  pub Keeps-if :
      {A : Type 0} {P : A → Type 0} (b : Bool) {x y : V A}
      → Keeps P x
      → Keeps P y
      → Keeps P (if b then x else y)
  Keeps-if true h k = h
  Keeps-if false h k = k

  pub innermost-Keeps : Keeps (SameFrame c) innermost
  unfolding innermost
  innermost-Keeps = Keeps-intro (λ inner own same h. (same, within inner own same h))

  pub set_innermost-Keeps :
      (d : ControlContext) → SameFrame c d → Keeps (λ _. Unit {0}) (set_innermost d)
  unfolding set_innermost
  set_innermost-Keeps d same = Keeps-intro (λ inner own _ h. (tt, within d own same h))

  pub push_operand-Keeps : (type : ValueType) → Keeps (λ _. Unit {0}) (push_operand type)
  unfolding push_operand
  push_operand-Keeps type = Keeps-intro (λ inner own same h. (tt, within inner (type ∷ own) same h))

  pub push_operand_tuple-Keeps :
      (types : TypeTuple) → Keeps (λ _. Unit {0}) (push_operand_tuple types)
  unfolding push_operand_tuple
  push_operand_tuple-Keeps [] = record { run = λ s w. (tt, w) }
  push_operand_tuple-Keeps (type ∷ types) =
      Keeps-intro λ inner own same h.
        (push_operand_tuple-Keeps types).run _ (within inner (type ∷ own) same h)

  pub validate_stack_empty-Keeps :
      Keeps (λ _. Unit {0}) validate_stack_empty_at_end_of_control_structure
  unfolding validate_stack_empty_at_end_of_control_structure
  validate_stack_empty-Keeps =
      Keeps-intro λ inner own same h. ground (arith, within inner own same h)

  pub enter_unreachable-Keeps : Keeps (λ _. Unit {0}) enter_unreachable
  unfolding enter_unreachable
  enter_unreachable-Keeps = Keeps-intro λ inner own same h. (
    tt,
    record {
      inner = record inner { is_reachable = false };
      own = [];
      control = refl;
      operands = rw (same.outer, h) (resize-append own base);
      same = record {
        outer = same.outer;
        params = same.params;
        results = same.results;
        else_params = same.else_params;
      };
      height = h;
    },
  )
