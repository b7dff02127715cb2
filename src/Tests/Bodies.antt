-- ===== src/Tests/Bodies.antt =====
-- A module with one function, `block (result i32) local.get 0 i32.eqz end end`, one memory that
-- it exports, and a data segment.
use wavm.Prelude.{◌<◌, ◌≡◌, ◌≢◌, refl, true, false, List, [], ◌∷◌, some, length, arith}
use wavm.Ir.Features.{Feature, FeatureLevel, FeatureSpec, set_feature_level}
use wavm.Ir.Module.{
  Module, FunctionDef, InitializerExpression, KindAndIndex, ElemExpr, ElemContents, ElemMode,
}
use wavm.Ir.Operators.{Op, BlockType, Imm, Signature}
use wavm.Ir.Types.{
  ReferenceType, ValueType, FunctionType, CallingConvention, ExternKind, IndexType, uptr_max,
}
use wavm.Validate.Function.{visit, visit_all, validate_whole_body, begin_function, empty_state}
use wavm.Validate.Keeps.{Safe, Checks}
use wavm.Validate.Keeps.References.{IsIndexed}
use wavm.Validate.Nesting.{visit-After}
use wavm.Validate.Nesting.Bodies.{closed, inside, run_depth, visit_all-IsNested, StateIsNested}
use wavm.Validate.Nesting.Functions.{validate_whole_body-Checks}
use wavm.Validate.Keeps.Leads.{Opened}
use wavm.Validate.Pops.{TakenOff, pop_and_validate_types_lem}
use wavm.Ir.Types.{is_subtype}
use wavm.Validate.State.{pop_and_validate_types}
use wavm.Validate.Result.{ok, invalid, fault, ValidationException}
use wavm.Validate.Segments.{validate_module, validate_pre_code_sections}
use wavm.Validate.Sound.{validate_module-no_fault, validate_pre_code_sections-Checks}
use wavm.Validate.Sound.Imports.{Every, Every-IsIndexed}
use wavm.Validate.State.{ControlType, ControlContext, Context, State}

abbrev all_features : FeatureSpec
unfolding set_feature_level
all_features = set_feature_level FeatureLevel.wavm_level (record {
  enabled = λ f. false;
  max_locals = 65536;
  max_labels_per_function = 4294967295;
  max_data_segments = 4294967295;
  max_syntax_recursion = 500;
})

abbrev i32_to_i32 : FunctionType
i32_to_i32 = record {
  results = ValueType.i32 ∷ [];
  params = ValueType.i32 ∷ [];
  calling_convention = CallingConvention.wasm;
}

abbrev i32_eqz : Op
i32_eqz =
    Op.plain Feature.mvp
      (Signature.monomorphic (record { results = ValueType.i32 ∷ []; params = ValueType.i32 ∷ [] }))
      Imm.no_imm

abbrev open_block : Op
open_block = Op.block (BlockType.one_result ValueType.i32)

abbrev body : List Op
body = open_block ∷ Op.local_get 0 ∷ i32_eqz ∷ Op.end ∷ Op.end ∷ []

abbrev with_code : List Op → FunctionDef
with_code code = record {
  type = 0;
  non_parameter_local_types = [];
  code = code;
  branch_tables = [];
}

abbrev with_body : List Op → Module
with_body code = record {
  feature_spec = all_features;
  types = i32_to_i32 ∷ [];
  functions = record { imports = []; defs = with_code code ∷ [] };
  tables = record { imports = []; defs = [] };
  memories = record {
    imports = [];
    defs =
        record { is_shared = false; index_type = IndexType.i32; size = record { min = 1; max = 2 } }
        ∷ [];
  };
  globals = record { imports = []; defs = [] };
  exception_types = record { imports = []; defs = [] };
  imports = [];
  exports = record { name = 109 ∷ []; kind = ExternKind.memory; index = 0 } ∷ [];
  data_segments =
      record {
        is_active = true;
        memory_index = 0;
        base_offset = InitializerExpression.i32_const 8;
        bytes = 1 ∷ 2 ∷ [];
      }
      ∷ [];
  elem_segments =
      record {
        mode = ElemMode.declared;
        contents =
            ElemContents.expr ReferenceType.funcref
              (ElemExpr.ref_func 0 ∷ ElemExpr.ref_null ReferenceType.funcref ∷ []);
      }
      ∷ [];
  start_function_index = uptr_max;
}

accepted : validate_module (with_body body) ≡ ok tt
unfolding wavm.Validate.Sections.validate_types wavm.Validate.Sections.validate_type_def
    wavm.Validate.Sections.validate_imports wavm.Validate.Sections.validate_function_declarations
    wavm.Validate.Sections.validate_function_declaration wavm.Validate.Sections.validate_table_defs
    wavm.Validate.Sections.validate_memory_defs wavm.Validate.Sections.validate_global_defs
    wavm.Validate.Sections.validate_exception_type_defs wavm.Validate.Sections.validate_exports
    wavm.Validate.Sections.validate_start_function wavm.Validate.Segments.validate_module
    wavm.Validate.Segments.validate_pre_code_sections wavm.Validate.Segments.validate_elem_segments
    wavm.Validate.Segments.validate_elem_exprs wavm.Validate.Segments.validate_elem_mode
    wavm.Validate.Segments.validate_elem_contents wavm.Validate.Segments.validate_elem_encoding
    wavm.Validate.Segments.validate_data_segments wavm.Validate.Types.validate_type_tuple
    wavm.Validate.Types.validate_value_type wavm.Validate.Types.validate_memory_type
    wavm.Validate.Types.validate_extern_kind wavm.Validate.Types.validate_type
    wavm.Validate.References.validate_function_type wavm.Validate.References.validate_initializer
    wavm.Validate.References.validate_block_type wavm.Validate.Function.validate_code_section
    wavm.Validate.Function.validate_function_code wavm.Validate.Function.begin_function
    wavm.Validate.Function.visit wavm.Validate.Function.visit_all wavm.Validate.Function.dispatch
    wavm.Validate.Function.validate_functions wavm.Validate.State.innermost
    wavm.Validate.State.set_innermost wavm.Validate.State.pop_control
    wavm.Validate.State.push_operand wavm.Validate.State.push_operand_tuple
    wavm.Validate.State.push_control_stack
    wavm.Validate.State.validate_stack_empty_at_end_of_control_structure
    wavm.Validate.State.enter_unreachable wavm.Validate.State.get_branch_target_by_depth
    wavm.Validate.State.validate_local_index wavm.Validate.State.operand_at
    wavm.Validate.State.peek_and_validate_operand wavm.Validate.State.pop_and_validate_operand
    wavm.Validate.State.pop_and_validate_types wavm.Validate.State.peek_and_validate_types
    wavm.Validate.Control.block wavm.Validate.Control.end wavm.Validate.Parametric.local_get
    wavm.Validate.Parametric.plain wavm.Validate.Imms.validate_imm wavm.Validate.Imms.signature_of
    wavm.Ir.Types.is_subtype wavm.Ir.Module.get_type all_features wavm.Ir.Features.group_of
accepted = refl

-- Two results where the block has one.
refused :
    validate_module (with_body (Op.local_get 0 ∷ Op.local_get 0 ∷ Op.end ∷ []))
    ≡ invalid ValidationException.stack_not_empty
unfolding wavm.Validate.Sections.validate_types wavm.Validate.Sections.validate_type_def
    wavm.Validate.Sections.validate_imports wavm.Validate.Sections.validate_function_declarations
    wavm.Validate.Sections.validate_function_declaration wavm.Validate.Sections.validate_table_defs
    wavm.Validate.Sections.validate_memory_defs wavm.Validate.Sections.validate_global_defs
    wavm.Validate.Sections.validate_exception_type_defs wavm.Validate.Sections.validate_exports
    wavm.Validate.Sections.validate_start_function wavm.Validate.Segments.validate_module
    wavm.Validate.Segments.validate_pre_code_sections wavm.Validate.Segments.validate_elem_segments
    wavm.Validate.Segments.validate_elem_exprs wavm.Validate.Segments.validate_elem_mode
    wavm.Validate.Segments.validate_elem_contents wavm.Validate.Segments.validate_elem_encoding
    wavm.Validate.Segments.validate_data_segments wavm.Validate.Types.validate_type_tuple
    wavm.Validate.Types.validate_value_type wavm.Validate.Types.validate_memory_type
    wavm.Validate.Types.validate_extern_kind wavm.Validate.Types.validate_type
    wavm.Validate.References.validate_function_type wavm.Validate.References.validate_initializer
    wavm.Validate.References.validate_block_type wavm.Validate.Function.validate_code_section
    wavm.Validate.Function.validate_function_code wavm.Validate.Function.begin_function
    wavm.Validate.Function.visit wavm.Validate.Function.visit_all wavm.Validate.Function.dispatch
    wavm.Validate.Function.validate_functions wavm.Validate.State.innermost
    wavm.Validate.State.set_innermost wavm.Validate.State.pop_control
    wavm.Validate.State.push_operand wavm.Validate.State.push_operand_tuple
    wavm.Validate.State.push_control_stack
    wavm.Validate.State.validate_stack_empty_at_end_of_control_structure
    wavm.Validate.State.enter_unreachable wavm.Validate.State.get_branch_target_by_depth
    wavm.Validate.State.validate_local_index wavm.Validate.State.operand_at
    wavm.Validate.State.peek_and_validate_operand wavm.Validate.State.pop_and_validate_operand
    wavm.Validate.State.pop_and_validate_types wavm.Validate.State.peek_and_validate_types
    wavm.Validate.Control.block wavm.Validate.Control.end wavm.Validate.Parametric.local_get
    wavm.Validate.Parametric.plain wavm.Validate.Imms.validate_imm wavm.Validate.Imms.signature_of
    wavm.Ir.Types.is_subtype wavm.Ir.Module.get_type all_features wavm.Ir.Features.group_of
refused = refl

-- `validateCodeSection` does not call `finish`: a body without its last `end` is accepted.
unclosed : validate_module (with_body (open_block ∷ [])) ≡ ok tt
unfolding wavm.Validate.Sections.validate_types wavm.Validate.Sections.validate_type_def
    wavm.Validate.Sections.validate_imports wavm.Validate.Sections.validate_function_declarations
    wavm.Validate.Sections.validate_function_declaration wavm.Validate.Sections.validate_table_defs
    wavm.Validate.Sections.validate_memory_defs wavm.Validate.Sections.validate_global_defs
    wavm.Validate.Sections.validate_exception_type_defs wavm.Validate.Sections.validate_exports
    wavm.Validate.Sections.validate_start_function wavm.Validate.Segments.validate_module
    wavm.Validate.Segments.validate_pre_code_sections wavm.Validate.Segments.validate_elem_segments
    wavm.Validate.Segments.validate_elem_exprs wavm.Validate.Segments.validate_elem_mode
    wavm.Validate.Segments.validate_elem_contents wavm.Validate.Segments.validate_elem_encoding
    wavm.Validate.Segments.validate_data_segments wavm.Validate.Types.validate_type_tuple
    wavm.Validate.Types.validate_value_type wavm.Validate.Types.validate_memory_type
    wavm.Validate.Types.validate_extern_kind wavm.Validate.Types.validate_type
    wavm.Validate.References.validate_function_type wavm.Validate.References.validate_initializer
    wavm.Validate.References.validate_block_type wavm.Validate.Function.validate_code_section
    wavm.Validate.Function.validate_function_code wavm.Validate.Function.begin_function
    wavm.Validate.Function.visit wavm.Validate.Function.visit_all wavm.Validate.Function.dispatch
    wavm.Validate.Function.validate_functions wavm.Validate.State.innermost
    wavm.Validate.State.set_innermost wavm.Validate.State.pop_control
    wavm.Validate.State.push_operand wavm.Validate.State.push_operand_tuple
    wavm.Validate.State.push_control_stack
    wavm.Validate.State.validate_stack_empty_at_end_of_control_structure
    wavm.Validate.State.enter_unreachable wavm.Validate.State.get_branch_target_by_depth
    wavm.Validate.State.validate_local_index wavm.Validate.State.operand_at
    wavm.Validate.State.peek_and_validate_operand wavm.Validate.State.pop_and_validate_operand
    wavm.Validate.State.pop_and_validate_types wavm.Validate.State.peek_and_validate_types
    wavm.Validate.Control.block wavm.Validate.Control.end wavm.Validate.Parametric.local_get
    wavm.Validate.Parametric.plain wavm.Validate.Imms.validate_imm wavm.Validate.Imms.signature_of
    wavm.Ir.Types.is_subtype wavm.Ir.Module.get_type all_features wavm.Ir.Features.group_of
unclosed = refl

abbrev test_module : Module
test_module = with_body body

test_module-IsIndexed : IsIndexed test_module
unfolding all_features
test_module-IsIndexed = Every-IsIndexed test_module refl tt (omega arith, tt)

abbrev test_context : Context
test_context = record {
  ir = test_module;
  function_def = with_code body;
  function_type = i32_to_i32;
  declared = [];
  locals = ValueType.i32 ∷ [];
}

abbrev function_frame : ControlContext
function_frame = record {
  type = ControlType.function;
  outer_stack_size = 0;
  params = ValueType.i32 ∷ [];
  results = ValueType.i32 ∷ [];
  else_params = [];
  is_reachable = true;
}

abbrev at_start : State
at_start = record { control_stack = function_frame ∷ []; stack = [] }

validate_module-no_fault_example : validate_module test_module ≢ fault
unfolding all_features
validate_module-no_fault_example =
    validate_module-no_fault test_module refl refl (((λ e. cc), ((λ e. cc), tt)), tt)
      ((tt, (tt, ((tt, tt), (tt, (tt, tt))))), tt)

validate_pre_code_sections-Checks_example :
    Checks
      (λ _.
        IsIndexed test_module
        × Every (λ def. def.type < length test_module.types) test_module.functions.defs)
      (validate_pre_code_sections test_module)
unfolding all_features
validate_pre_code_sections-Checks_example =
    validate_pre_code_sections-Checks test_module refl refl (((λ e. cc), ((λ e. cc), tt)), tt)

validate_whole_body-Checks_example :
    Checks
      (λ s. (run_depth 1 body ≡ some 0) × (s ≡ empty_state))
      (validate_whole_body test_module [] (with_code body))
validate_whole_body-Checks_example =
    validate_whole_body-Checks test_module [] (with_code body) test_module-IsIndexed (omega arith)
      (tt, (tt, ((tt, tt), (tt, (tt, tt)))))

visit_all-IsNested_example :
    Safe
      (λ _ s'. StateIsNested s' × (run_depth 1 body ≡ some (length s'.control_stack)))
      (visit_all test_context body at_start)
visit_all-IsNested_example =
    visit_all-IsNested test_context body at_start test_module-IsIndexed
      (tt, (tt, ((tt, tt), (tt, (tt, tt))))) (inside [] [] refl refl (closed refl))

visit-After_example :
    Safe (λ _ s'. Opened function_frame [] [] s') (visit test_context open_block at_start)
visit-After_example =
    visit-After test_context function_frame [] [] open_block at_start test_module-IsIndexed tt
      (record {
        inner = function_frame;
        own = [];
        control = refl;
        operands = refl;
        same = record { outer = refl; params = refl; results = refl; else_params = refl };
        height = refl;
      })

abbrev two_operands : State
two_operands = record {
  control_stack = function_frame ∷ [];
  stack = ValueType.i64 ∷ ValueType.i32 ∷ [];
}

both_popped :
    pop_and_validate_types (ValueType.i32 ∷ ValueType.i64 ∷ []) two_operands ≡ ok (tt, at_start)
unfolding pop_and_validate_types is_subtype
both_popped = refl

pop_and_validate_types_lem_example :
    TakenOff function_frame []
      (ValueType.i32 ∷ ValueType.i64 ∷ [])
      (ValueType.i64 ∷ ValueType.i32 ∷ [])
      at_start
pop_and_validate_types_lem_example =
    pop_and_validate_types_lem function_frame [] (ValueType.i32 ∷ ValueType.i64 ∷ [])
      (ValueType.i64 ∷ ValueType.i32 ∷ []) at_start refl (omega arith) both_popped
