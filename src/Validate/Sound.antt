-- ===== src/Validate/Sound.antt =====
-- The validation of a whole module, section by section.
pub mod Imports
pub mod Sections
pub mod Segments
use wavm.Prelude.{ℕ, ◌<◌, ◌≡◌, ◌≢◌, Bool, true, List, [], ◌∷◌, length, if◌then◌else◌}
use wavm.Ir.Features.{Feature}
use wavm.Ir.Module.{Module, FunctionDef, DataSegment, space_size, get_type-some}
use wavm.Validate.Function.{validate_functions, validate_function_code, validate_code_section}
use wavm.Validate.Keeps.{Checks}
use wavm.Validate.Keeps.References.{IsIndexed, Checks-bind}
use wavm.Validate.Nesting.Bodies.{AllEncoded}
use wavm.Validate.Nesting.Functions.{Ran, validate_function_code-Ran}
use wavm.Validate.References.{Declared}
use wavm.Validate.Result.{Result, ok, invalid, fault, ◌>>=◌}
use wavm.Validate.Sections.{
  num_imports, validate_types, validate_imports, validate_function_declarations,
  validate_table_defs, validate_memory_defs, validate_global_defs, validate_exception_type_defs,
  validate_exports, validate_start_function,
}
use wavm.Validate.Segments.{
  validate_elem_segments, validate_data_segments, validate_pre_code_sections, validate_module,
}
use wavm.Validate.Sound.Imports.{Every, Every-IsIndexed, validate_function_declarations-Below}
use wavm.Validate.Sound.Sections.{
  Passes, Passes-bind, validate_types-Passes, validate_imports-Below, validate_table_defs-Passes,
  validate_memory_defs-Passes, validate_exception_type_defs-Passes,
}
use wavm.Validate.Sound.Segments.{
  HasElems, validate_global_defs-Passes, validate_exports-Passes, validate_start_function-Passes,
  validate_elem_segments-Passes, validate_data_segments-Passes,
}

-- The sections before the code fail no assertion, and if they are accepted then every type index
-- of an imported or defined function is in range. The MVP feature has to be on, the list of all
-- imports as long as the lists of imports of each kind together, and no element expression the
-- default one.
pub validate_pre_code_sections-Checks :
    (m : Module)
    → m.feature_spec.enabled Feature.mvp ≡ true
    → length m.imports ≡ num_imports m
    → Every (λ segment. HasElems segment.contents) m.elem_segments
    → Checks
        (λ _. IsIndexed m × Every (λ def. def.type < length m.types) m.functions.defs)
        (validate_pre_code_sections m)
unfolding validate_pre_code_sections
validate_pre_code_sections-Checks m mvp counted elems =
    let Q : Declared → Type 0 =
      λ _. IsIndexed m × Every (λ def. def.type < length m.types) m.functions.defs in
    Checks-bind (λ _. Unit {0}) Q (validate_types m) _ (validate_types-Passes m mvp)
      λ _ _.
        Checks-bind (λ _. Every (λ x. x.type < length m.types) m.functions.imports) Q
          (validate_imports m []) _ (validate_imports-Below m [] mvp counted)
          λ imported a.
            Checks-bind (λ _. Every (λ def. def.type < length m.types) m.functions.defs) Q
              (validate_function_declarations m) _ (validate_function_declarations-Below m)
              λ _ b.
                let v = Every-IsIndexed m mvp a b in
                Checks-bind (λ _. Unit {0}) Q (validate_table_defs m) _
                  (validate_table_defs-Passes m)
                  λ _ _.
                    Checks-bind (λ _. Unit {0}) Q (validate_memory_defs m) _
                      (validate_memory_defs-Passes m)
                      λ _ _.
                        Checks-bind (λ _. Unit {0}) Q
                          (validate_global_defs m m.globals.defs imported) _
                          (validate_global_defs-Passes m v m.globals.defs imported)
                          λ initialized _.
                            Checks-bind (λ _. Unit {0}) Q (validate_exception_type_defs m) _
                              (validate_exception_type_defs-Passes m mvp)
                              λ _ _.
                                Checks-bind (λ _. Unit {0}) Q
                                  (validate_exports m m.exports [] initialized) _
                                  (validate_exports-Passes m v m.exports [] initialized)
                                  λ exported _.
                                    Checks-bind (λ _. Unit {0}) Q (validate_start_function m) _
                                      (validate_start_function-Passes m v)
                                      λ _ _.
                                        add (validate_elem_segments m m.elem_segments exported)
                                          (validate_elem_segments-Passes m v m.elem_segments
                                            exported elems)
                                          (v, b)
  where
    add :
        (r : Result Declared)
        → Passes r
        → (IsIndexed m × Every (λ def. def.type < length m.types) m.functions.defs)
        → Checks (λ _. IsIndexed m × Every (λ def. def.type < length m.types) m.functions.defs) r
    add (ok d) h q = q
    add (invalid e) h q = tt
    add fault h q = h

validate_functions-Passes :
    (m : Module) (declared : Declared) (defs : List FunctionDef)
    → IsIndexed m
    → Every (λ def. def.type < length m.types) defs
    → Every (λ def. AllEncoded def def.code) defs
    → Passes (validate_functions m declared defs)
unfolding validate_functions
validate_functions-Passes m declared [] v h enc = tt
validate_functions-Passes m declared (def ∷ defs) v h enc =
    Checks-bind (Ran def) (λ _. Unit {0}) (validate_function_code m declared def) _
      (validate_function_code-Ran m declared def v h.0 enc.0)
      λ _ _. validate_functions-Passes m declared defs v h.1 enc.1

not_fault : {A : Type 0} (P : A → Type 0) (r : Result A) → Checks P r → r ≢ fault
not_fault P (ok a) h = λ e. cc
not_fault P (invalid e) h = λ e. cc
not_fault P fault h = absurd h

-- Validating a module ends in acceptance or in a validation exception: no assertion fails, no
-- unreachable code is reached and no vector is read out of range, whatever types the module has and
-- whatever indices it names. The MVP feature has to be on, the list of all imports as long as the
-- lists of imports of each kind together, no element expression the default one, and each operator
-- of each body encodable.
pub validate_module-no_fault :
    (m : Module)
    → m.feature_spec.enabled Feature.mvp ≡ true
    → length m.imports ≡ num_imports m
    → Every (λ segment. HasElems segment.contents) m.elem_segments
    → Every (λ def. AllEncoded def def.code) m.functions.defs
    → validate_module m ≢ fault
unfolding validate_module validate_code_section
validate_module-no_fault m mvp counted elems enc =
    not_fault (λ _. Unit {0}) (validate_module m)
      (Checks-bind (λ _. IsIndexed m × Every (λ def. def.type < length m.types) m.functions.defs)
        (λ _. Unit {0}) (validate_pre_code_sections m) _
        (validate_pre_code_sections-Checks m mvp counted elems)
        λ declared q.
          Passes-bind (validate_functions m declared m.functions.defs) _
            (validate_functions-Passes m declared m.functions.defs q.0 q.1 enc)
            λ _. validate_data_segments-Passes m q.0)
