-- ===== src/Validate/Function.antt =====
-- Validation of a function body: the constructor of `FunctionValidationContext`, the visitor
-- methods and `finish` of `CodeValidationStream`, and `validateCodeSection`.
use wavm.Prelude.{List, [], ◌∷◌, ◌++◌, get_elem?}
use wavm.Ir.Module.{Module, FunctionDef}
use wavm.Ir.Operators.{Op}
use wavm.Ir.Types.{ValueType}
use wavm.Validate.Control as C
use wavm.Validate.Parametric as P
use wavm.Validate.References.{Declared}
use wavm.Validate.Result as R
use wavm.Validate.Result.{ValidationException, Result, ok, invalid, fault, in_range}
use wavm.Validate.State.{
  ControlType, Context, State, V, pure, ◌>>◌, push_control_stack, enter_unreachable,
}
use wavm.Validate.Types.{validate_type_tuple}

-- No operator may follow the `end` of the function.
unfoldable pub validate_non_empty_control_stack : V (Unit {0})
validate_non_empty_control_stack s = elim s.control_stack [
  | [] ↦ invalid ValidationException.expected_non_empty_control_stack
  | c ∷ cs ↦ ok (tt, s)
]

module _ (ctx : Context) where
  unfoldable pub dispatch : Op → V (Unit {0})
  dispatch (Op.block type) = C.block ctx type
  dispatch (Op.loop type) = C.loop ctx type
  dispatch (Op.if_ type) = C.if_ ctx type
  dispatch (Op.try_ type) = C.try_ ctx type
  dispatch Op.else_ = C.else_ ctx
  dispatch Op.end = C.end ctx
  dispatch Op.catch_all = C.catch_all ctx
  dispatch (Op.catch_ i) = C.catch_ ctx i
  dispatch Op.unreachable = enter_unreachable
  dispatch Op.return_ = C.return_ ctx
  dispatch Op.drop = C.pop_ ValueType.any
  dispatch Op.ref_is_null = P.ref_is_null ctx
  dispatch (Op.br depth) = C.br ctx depth
  dispatch (Op.br_if depth) = C.br_if ctx depth
  dispatch (Op.br_table default_depth table) = C.br_table ctx default_depth table
  dispatch (Op.call i) = P.call ctx i
  dispatch (Op.call_indirect type_index i) = P.call_indirect ctx type_index i
  dispatch (Op.local_get i) = P.local_get ctx i
  dispatch (Op.local_set i) = P.local_set ctx i
  dispatch (Op.local_tee i) = P.local_tee ctx i
  dispatch (Op.global_get i) = P.global_get ctx i
  dispatch (Op.global_set i) = P.global_set ctx i
  dispatch (Op.table_get i) = P.table_get ctx i
  dispatch (Op.table_set i) = P.table_set ctx i
  dispatch (Op.table_grow i) = P.table_grow ctx i
  dispatch (Op.table_fill i) = P.table_fill ctx i
  dispatch (Op.throw_ i) = P.throw_ ctx i
  dispatch (Op.rethrow depth) = P.rethrow ctx depth
  dispatch (Op.ref_null type) = P.ref_null ctx type
  dispatch (Op.select type) = P.select ctx type
  dispatch (Op.plain required sig imm) = P.plain ctx required sig imm

  unfoldable pub visit : Op → V (Unit {0})
  unfolding dispatch validate_non_empty_control_stack
  visit op = validate_non_empty_control_stack >> dispatch op

  -- The loop over the operators of a body.
  unfoldable pub visit_all : List Op → V (Unit {0})
  visit_all [] = pure tt
  visit_all (op ∷ ops) = let rest = visit_all ops in visit op >> rest

abbrev pub empty_state : State
empty_state = record { control_stack = []; stack = [] }

-- The constructor.
unfoldable pub begin_function : Module → Declared → FunctionDef → Result (Context × State)
begin_function m declared def = R.◌>>=◌ (in_range (get_elem? m.types def.type)) λ type.
    R.◌>>◌ (validate_type_tuple m def.non_parameter_local_types) (
      R.◌>>=◌ (push_control_stack ControlType.function type.results type.results [] empty_state)
        (λ r. ok (
          record {
            ir = m;
            function_def = def;
            function_type = type;
            declared = declared;
            locals = type.params ++ def.non_parameter_local_types;
          },
          r.1,
        )))

-- `finish`
unfoldable pub finish : V (Unit {0})
finish s = elim s.control_stack [
  | [] ↦ ok (tt, s)
  | c ∷ cs ↦ invalid ValidationException.end_of_code_before_end_of_function
]

-- The body of the loop of `validateCodeSection`. It does not call `finish`.
unfoldable pub validate_function_code : Module → Declared → FunctionDef → Result State
validate_function_code m declared def =
    R.◌>>=◌ (begin_function m declared def) λ r. R.◌>>=◌ (visit_all r.0 def.code r.1) λ q. ok q.1

unfoldable pub validate_functions : Module → Declared → List FunctionDef → Result (Unit {0})
validate_functions m declared [] = ok tt
validate_functions m declared (def ∷ defs) =
    R.◌>>=◌ (validate_function_code m declared def) λ s. validate_functions m declared defs

unfoldable pub validate_code_section : Module → Declared → Result (Unit {0})
unfolding validate_functions
validate_code_section m declared = validate_functions m declared m.functions.defs

-- A `CodeValidationProxyStream` that has seen every operator of a body, and is finished.
unfoldable pub validate_whole_body : Module → Declared → FunctionDef → Result State
validate_whole_body m declared def =
    R.◌>>=◌ (validate_function_code m declared def) λ s. R.◌>>=◌ (finish s) λ q. ok q.1
