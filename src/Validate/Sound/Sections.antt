-- ===== src/Validate/Sound/Sections.antt =====
-- The sections that are validated before the types of functions are known to be in range.
use wavm.Prelude.{◌<◌, ◌≡◌, Bool, true, List, [], ◌∷◌, length, arith, ◌==◌}
use wavm.Ir.Features.{Feature}
use wavm.Ir.Module.{Module}
use wavm.Ir.Types.{TableType, MemoryType, GlobalType}
use wavm.Validate.Keeps.{Checks}
use wavm.Validate.Keeps.References.{
  Checks-bind, validate_value_type-Checks, validate_type_tuple-Checks,
  validate_reference_type-Checks,
}
use wavm.Validate.References.{Declared}
use wavm.Validate.Result.{Result, ◌>>=◌, validate_unless, assert}
use wavm.Validate.Sections.{
  each, feature_if, validate_type_def, validate_types, validate_global_import, num_imports,
  validate_imports, validate_function_imports, validate_table_count, validate_memory_count,
  validate_table_defs, validate_memory_defs, validate_exception_type_defs,
}
use wavm.Validate.Sound.Imports.{Every, validate_function_imports-Below}
use wavm.Validate.Types.{
  validate_type_tuple, validate_size, validate_table_type, validate_memory_type,
  validate_global_type,
}

abbrev pub Passes : {A : Type 0} → Result A → Type 0
Passes r = Checks (λ _. Unit {0}) r

pub Passes-bind :
    {A B : Type 0} (r : Result A) (f : A → Result B)
    → Passes r
    → ((a : A) → Passes (f a))
    → Passes (r >>= f)
Passes-bind r f h k = Checks-bind (λ _. Unit {0}) (λ _. Unit {0}) r f h λ a _. k a

pub Passes-each :
    {A : Type 0} (f : A → Result (Unit {0})) (list : List A)
    → ((a : A) → Passes (f a))
    → Passes (each f list)
unfolding each
Passes-each f [] h = tt
Passes-each f (a ∷ list) h = Passes-bind (f a) _ (h a) λ _. Passes-each f list h

Passes-unless : (e : _) (b : Bool) → Passes (validate_unless e b)
Passes-unless e b = ground arith

Passes-feature_if : (m : Module) (b : Bool) (f : Feature) → Passes (feature_if m b f)
Passes-feature_if m b f = ground arith

pub validate_table_type-Passes :
    (m : Module) (type : TableType) → Passes (validate_table_type m type)
unfolding validate_table_type validate_size
validate_table_type-Passes m type =
    let e = validate_reference_type-Checks m type.element_type in ground (arith, e)

validate_memory_type-Passes :
    (m : Module) (type : MemoryType) → Passes (validate_memory_type m type)
unfolding validate_memory_type validate_size
validate_memory_type-Passes m type = ground arith

pub validate_global_type-Passes :
    (m : Module) (type : GlobalType)
    → m.feature_spec.enabled Feature.mvp ≡ true
    → Passes (validate_global_type m type)
unfolding validate_global_type
validate_global_type-Passes m type e = validate_value_type-Checks m type.value_type e

pub validate_types-Passes :
    (m : Module) → m.feature_spec.enabled Feature.mvp ≡ true → Passes (validate_types m)
unfolding validate_types validate_type_def
validate_types-Passes m e = Passes-each (validate_type_def m) m.types λ type.
    Passes-bind (validate_type_tuple m type.params) _ (validate_type_tuple-Checks m type.params e)
      λ _.
        Passes-bind (validate_type_tuple m type.results) _
          (validate_type_tuple-Checks m type.results e) λ _. ground arith

pub validate_imports-Below :
    (m : Module) (declared : Declared)
    → m.feature_spec.enabled Feature.mvp ≡ true
    → length m.imports ≡ num_imports m
    → Checks
        (λ _. Every (λ x. x.type < length m.types) m.functions.imports)
        (validate_imports m declared)
unfolding validate_imports validate_global_import
validate_imports-Below m declared e counted =
    let Q : Declared → Type 0 = λ _. Every (λ x. x.type < length m.types) m.functions.imports in
    Checks-bind (λ _. Unit {0}) Q (assert (length m.imports == num_imports m)) _
      (ground (arith, counted))
      λ _ _.
        Checks-bind Q Q (validate_function_imports m 0 m.functions.imports declared) _
          (validate_function_imports-Below m 0 m.functions.imports declared)
          λ added q.
            Checks-bind (λ _. Unit {0}) Q
              (each (λ x. validate_table_type m x.type) m.tables.imports) _
              (Passes-each _ m.tables.imports λ x. validate_table_type-Passes m x.type)
              λ _ _.
                Checks-bind (λ _. Unit {0}) Q
                  (each (λ x. validate_memory_type m x.type) m.memories.imports) _
                  (Passes-each _ m.memories.imports λ x. validate_memory_type-Passes m x.type)
                  λ _ _.
                    Checks-bind (λ _. Unit {0}) Q
                      (each (validate_global_import m) m.globals.imports) _
                      (Passes-each (validate_global_import m) m.globals.imports λ x.
                        Passes-bind (validate_global_type m x.type) _
                          (validate_global_type-Passes m x.type e) λ _. ground arith)
                      λ _ _.
                        Checks-bind (λ _. Unit {0}) Q
                          (each (λ x. validate_type_tuple m x.type.params)
                            m.exception_types.imports)
                          _
                          (Passes-each _ m.exception_types.imports
                            λ x. validate_type_tuple-Checks m x.type.params e)
                          λ _ _.
                            Checks-bind (λ _. Unit {0}) Q (validate_table_count m) _ (ground arith)
                              λ _ _.
                                Checks-bind (λ _. Unit {0}) Q (validate_memory_count m) _
                                  (ground arith) λ _ _. q

pub validate_table_defs-Passes : (m : Module) → Passes (validate_table_defs m)
unfolding validate_table_defs
validate_table_defs-Passes m =
    Passes-bind (each (validate_table_type m) m.tables.defs) _
      (Passes-each _ m.tables.defs (validate_table_type-Passes m)) λ _. ground arith

pub validate_memory_defs-Passes : (m : Module) → Passes (validate_memory_defs m)
unfolding validate_memory_defs
validate_memory_defs-Passes m =
    Passes-bind (each (validate_memory_type m) m.memories.defs) _
      (Passes-each _ m.memories.defs (validate_memory_type-Passes m)) λ _. ground arith

pub validate_exception_type_defs-Passes :
    (m : Module)
    → m.feature_spec.enabled Feature.mvp ≡ true
    → Passes (validate_exception_type_defs m)
unfolding validate_exception_type_defs
validate_exception_type_defs-Passes m e =
    Passes-each _ m.exception_types.defs λ def. validate_type_tuple-Checks m def.params e
