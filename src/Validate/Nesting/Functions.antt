-- ===== src/Validate/Nesting/Functions.antt =====
-- A function definition from its first operator to `finish`.
use wavm.Prelude.{◌<◌, ◌≡◌, refl, List, [], ◌∷◌, length, get_elem?-some, some}
use wavm.Ir.Module.{Module, FunctionDef}
use wavm.Ir.Types.{ValueType}
use wavm.Validate.Function.{
  visit_all, empty_state, begin_function, validate_function_code, validate_whole_body, finish,
}
use wavm.Validate.Keeps.{Safe, Checks}
use wavm.Validate.Keeps.References.{IsIndexed, validate_type_tuple-Checks, Checks-bind}
use wavm.Validate.Nesting.Bodies.{
  IsNested, closed, inside, StateIsNested, AllEncoded, run_depth, visit_all-IsNested,
}
use wavm.Validate.References.{Declared}
use wavm.Validate.Result.{Result, ok, invalid, fault}
use wavm.Validate.State.{Context, ControlContext, State, push_control_stack}
use wavm.Validate.Types.{validate_type_tuple}

-- The state in which the first operator is visited: the function's own frame is open.
record Begins (m : Module) (def : FunctionDef) (r : Context × State) : Type 0 where
  ir : r.0.ir ≡ m
  function_def : r.0.function_def ≡ def
  nested : StateIsNested r.1
  one : length r.1.control_stack ≡ 1

begin_function-Begins :
    (m : Module) (declared : Declared) (def : FunctionDef)
    → IsIndexed m
    → def.type < length m.types
    → Checks (Begins m def) (begin_function m declared def)
unfolding begin_function push_control_stack
begin_function-Begins m declared def v h =
    let (type, e) = get_elem?-some m.types def.type h in
    rw e (
      Checks-bind (λ _. Unit {0}) (Begins m def)
        (validate_type_tuple m def.non_parameter_local_types) _
        (validate_type_tuple-Checks m def.non_parameter_local_types v.mvp)
        λ _ _. record {
          ir = refl;
          function_def = refl;
          nested = inside [] [] refl refl (closed refl);
          one = refl;
        })

-- What is left when a body was accepted: an empty operand stack if no structure is open, and as
-- many open structures as the body's brackets leave of the one that it begins with.
pub record Ran (def : FunctionDef) (s : State) : Type 0 where
  nested : StateIsNested s
  brackets : run_depth 1 def.code ≡ some (length s.control_stack)

visit_all-Ran :
    (m : Module) (def : FunctionDef) (ctx : Context) (s : State)
    → IsIndexed m
    → AllEncoded def def.code
    → Begins m def (ctx, s)
    → Checks (λ r. Ran def r.1) (visit_all ctx def.code s)
visit_all-Ran m def ctx s v h b =
    go (visit_all ctx def.code s)
      (visit_all-IsNested ctx def.code s (rw b.ir v) (rw b.function_def h) b.nested)
  where
    go :
        (r : Result (Unit {0} × State))
        → Safe
            (λ _ t.
              StateIsNested t
              × (run_depth (length s.control_stack) def.code ≡ some (length t.control_stack)))
            r
        → Checks (λ r. Ran def r.1) r
    go (ok (a, t)) q = record { nested = q.0; brackets = rw b.one at q.1 }
    go (invalid e) q = tt
    go fault q = q

pub validate_function_code-Ran :
    (m : Module) (declared : Declared) (def : FunctionDef)
    → IsIndexed m
    → def.type < length m.types
    → AllEncoded def def.code
    → Checks (Ran def) (validate_function_code m declared def)
unfolding validate_function_code
validate_function_code-Ran m declared def v h enc =
    Checks-bind (Begins m def) (Ran def) (begin_function m declared def) _
      (begin_function-Begins m declared def v h)
      λ r b.
        Checks-bind (λ q. Ran def q.1) (Ran def) (visit_all r.0 def.code r.1) _
          (visit_all-Ran m def r.0 r.1 v enc b) λ q x. x

finish-Ran :
    (def : FunctionDef) (s : State)
    → Ran def s
    → Checks (λ r. (run_depth 1 def.code ≡ some 0) × (r.1 ≡ empty_state)) (finish s)
unfolding finish
finish-Ran def s r = go s.control_stack s.stack r.nested r.brackets
  where
    go :
        (cs : List ControlContext) (stack : List ValueType)
        → IsNested cs stack
        → run_depth 1 def.code ≡ some (length cs)
        → Checks
            (λ r. (run_depth 1 def.code ≡ some 0) × (r.1 ≡ empty_state))
            (finish (record { control_stack = cs; stack = stack }))
    go [] stack (closed e) b = (b, λ i. record { control_stack = []; stack = e i })
    go (c ∷ cs) stack n b = tt

-- Validating a whole body of encodable operators and then finishing it fails no assertion, in a
-- well-indexed module that has the function's type. A body that is accepted has matching brackets:
-- every operator stands inside the function, the last `end` closes it, and no operand is left on
-- the stack.
pub validate_whole_body-Checks :
    (m : Module) (declared : Declared) (def : FunctionDef)
    → IsIndexed m
    → def.type < length m.types
    → AllEncoded def def.code
    → Checks
        (λ s. (run_depth 1 def.code ≡ some 0) × (s ≡ empty_state))
        (validate_whole_body m declared def)
unfolding validate_whole_body
validate_whole_body-Checks m declared def v h enc =
    Checks-bind (Ran def) (λ s. (run_depth 1 def.code ≡ some 0) × (s ≡ empty_state))
      (validate_function_code m declared def) _ (validate_function_code-Ran m declared def v h enc)
      λ s r.
        Checks-bind (λ q. (run_depth 1 def.code ≡ some 0) × (q.1 ≡ empty_state))
          (λ s. (run_depth 1 def.code ≡ some 0) × (s ≡ empty_state)) (finish s) _
          (finish-Ran def s r) λ q x. x
