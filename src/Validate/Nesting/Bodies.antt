-- ===== src/Validate/Nesting/Bodies.antt =====
-- Whole bodies: the nesting of the two stacks along a sequence of operators.
use wavm.Prelude.{
  ℕ, zero, suc, ◌-◌, ◌<◌, ◌≡◌, refl, sym, ap, ◌∙◌, List, [], ◌∷◌, ◌++◌, length, arith, some, none,
  Option,
}
use wavm.Ir.Module.{FunctionDef}
use wavm.Ir.Operators.{Op}
use wavm.Ir.Types.{ValueType, TypeTuple}
use wavm.Validate.Function.{visit, visit_all}
use wavm.Validate.Keeps.{Safe, Within}
use wavm.Validate.Keeps.End.{after_end}
use wavm.Validate.Keeps.Leads.{pushed, pushed-append}
use wavm.Validate.Keeps.References.{IsIndexed}
use wavm.Validate.Nesting.{Bracket, bracket, IsEncoded, After, visit-After}
use wavm.Validate.Result.{Result, ok, invalid, fault}
use wavm.Validate.State.{ControlContext, Context, State}

-- The operands of each open structure stand on those of the structures around it, and its
-- `outerStackSize` is the height at which they begin. There are none outside all structures.
pub data IsNested : List ControlContext → List ValueType → Type 0 where
  closed : {stack : List ValueType} → stack ≡ [] → IsNested [] stack
  inside :
      {c : ControlContext} {cs : List ControlContext} {stack : List ValueType}
      (own base : List ValueType)
      → stack ≡ own ++ base
      → c.outer_stack_size ≡ length base
      → IsNested cs base
      → IsNested (c ∷ cs) stack

abbrev pub StateIsNested : State → Type 0
StateIsNested s = IsNested s.control_stack s.stack

-- The change of the number of open structures.
abbrev pub depth_after : Bracket → ℕ → ℕ
depth_after Bracket.opens n = suc n
depth_after Bracket.inner n = n
depth_after Bracket.closes n = n - 1

abbrev depth : State → ℕ
depth s = length s.control_stack

move :
    {cs ds : List ControlContext} {s t : List ValueType}
    → cs ≡ ds
    → s ≡ t
    → IsNested ds t
    → IsNested cs s
move e f n = rw (e, f) n

Within-IsNested :
    {c : ControlContext} {cs : List ControlContext} {base : List ValueType} {s : State}
    → Within c cs base s
    → IsNested cs base
    → StateIsNested s
Within-IsNested w n = rw (w.control, w.operands) (inside w.own _ refl (w.same.outer ∙ w.height) n)

after_end-IsNested :
    (cs : List ControlContext) (results : TypeTuple) (base : List ValueType)
    → IsNested cs base
    → IsNested cs (after_end cs results base)
after_end-IsNested [] results base n = n
after_end-IsNested (d ∷ ds) results base (inside own below e h n) =
    inside (pushed results own) below (ap (pushed results) e ∙ pushed-append results own below) h n

After-IsNested :
    (b : Bracket) (c : ControlContext) (cs : List ControlContext) (base : List ValueType)
    (s : State)
    → After b c cs base s
    → IsNested cs base
    → StateIsNested s × (depth s ≡ depth_after b (suc (length cs)))
After-IsNested Bracket.opens c cs base s o n = (
  Within-IsNested o.opened (inside o.own base refl (o.same.outer ∙ o.height) n),
  ap length o.opened.control,
)
After-IsNested Bracket.inner c cs base s w n = (Within-IsNested w n, ap length w.control)
After-IsNested Bracket.closes c cs base s k n = (
  rw (k.control, k.operands) (after_end-IsNested cs c.results base n),
  omega (arith, ap length k.control),
)

-- A visited operator fails no assertion; if it is accepted, the stacks are nested again, and the
-- number of open structures has changed as the operator says.
pub visit-IsNested :
    (ctx : Context) (op : Op) (s : State)
    → IsIndexed ctx.ir
    → IsEncoded ctx.function_def op
    → StateIsNested s
    → Safe
        (λ _ s'. StateIsNested s' × (0 < depth s) × (depth s' ≡ depth_after (bracket op) (depth s)))
        (visit ctx op s)
visit-IsNested ctx op s v h n = go s.control_stack s.stack n
  where
    finish_ :
        (c : ControlContext) (cs : List ControlContext) (base : List ValueType)
        → IsNested cs base
        → (r : Result (Unit {0} × State)) → Safe (λ _ s'. After (bracket op) c cs base s') r
        → Safe
            (λ _ s'.
              StateIsNested s'
              × (0 < suc (length cs))
              × (depth s' ≡ depth_after (bracket op) (suc (length cs))))
            r
    finish_ c cs base m (ok (a, s')) q =
        let (x, y) = After-IsNested (bracket op) c cs base s' q m in (x, omega arith, y)
    finish_ c cs base m (invalid e) q = tt
    finish_ c cs base m fault q = q

    go :
        (cs : List ControlContext) (stack : List ValueType)
        → IsNested cs stack
        → Safe
            (λ _ s'.
              StateIsNested s'
              × (0 < length cs)
              × (depth s' ≡ depth_after (bracket op) (length cs)))
            (visit ctx op (record { control_stack = cs; stack = stack }))
    go [] stack m = unfold visit in tt
    go (c ∷ cs) stack (inside own base e k m) = finish_ c cs base m _ (
        visit-After ctx c cs base op _ v h (record {
          inner = c;
          own = own;
          control = refl;
          operands = e;
          same = record { outer = refl; params = refl; results = refl; else_params = refl };
          height = k;
        }))

-- The number of open structures along a body: `none` if an operator stands where none is open.
pub run_depth : ℕ → List Op → Option ℕ
run_depth n [] = some n
run_depth zero (op ∷ ops) = none
run_depth (suc n) (op ∷ ops) = run_depth (depth_after (bracket op) (suc n)) ops

abbrev pub AllEncoded : FunctionDef → List Op → Type 0
AllEncoded def [] = Unit
AllEncoded def (op ∷ ops) = IsEncoded def op × AllEncoded def ops

run_depth-suc :
    (n : ℕ) (op : Op) (ops : List Op)
    → 0 < n
    → run_depth n (op ∷ ops) ≡ run_depth (depth_after (bracket op) n) ops
unfolding run_depth
run_depth-suc zero op ops h = absurd (omega arith)
run_depth-suc (suc n) op ops h = refl

-- Visiting a sequence of encodable operators, from a state whose operands are nested in its control
-- structures and in a well-indexed module, fails no assertion. If it is accepted, then the operands
-- are nested again, and the number of open structures is what the brackets of the sequence make of
-- the number before it.
pub visit_all-IsNested :
    (ctx : Context) (ops : List Op) (s : State)
    → IsIndexed ctx.ir
    → AllEncoded ctx.function_def ops
    → StateIsNested s
    → Safe
        (λ _ s'. StateIsNested s' × (run_depth (depth s) ops ≡ some (depth s')))
        (visit_all ctx ops s)
unfolding visit_all
visit_all-IsNested ctx [] s v h n = (n, unfold run_depth in refl)
visit_all-IsNested ctx (op ∷ ops) s v h n =
    go (visit ctx op s) (visit-IsNested ctx op s v h.0 n)
      (λ s' m. visit_all-IsNested ctx ops s' v h.1 m)
  where
    chain :
        (s' : State) (r : Result (Unit {0} × State))
        → 0 < depth s
        → depth s' ≡ depth_after (bracket op) (depth s)
        → Safe (λ _ t. StateIsNested t × (run_depth (depth s') ops ≡ some (depth t))) r
        → Safe (λ _ t. StateIsNested t × (run_depth (depth s) (op ∷ ops) ≡ some (depth t))) r
    chain s' (ok (a, t)) pos d q =
        (q.0, run_depth-suc (depth s) op ops pos ∙ ap (λ n. run_depth n ops) (sym d) ∙ q.1)
    chain s' (invalid e) pos d q = tt
    chain s' fault pos d q = q

    go :
        (r : Result (Unit {0} × State))
        → Safe
            (λ _ s'.
              StateIsNested s' × (0 < depth s) × (depth s' ≡ depth_after (bracket op) (depth s)))
            r
        → ((s' : State)
            → StateIsNested s'
            → Safe
                (λ _ t. StateIsNested t × (run_depth (depth s') ops ≡ some (depth t)))
                (visit_all ctx ops s'))
        → Safe
            (λ _ t. StateIsNested t × (run_depth (depth s) (op ∷ ops) ≡ some (depth t)))
            (elim r [ ok (a, s') ↦ visit_all ctx ops s' | invalid e ↦ invalid e | fault ↦ fault ])
    go (ok (a, s')) q k = chain s' _ q.1 q.2 (k s' q.0)
    go (invalid e) q k = tt
    go fault q k = q
