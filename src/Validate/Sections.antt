-- ===== src/Validate/Sections.antt =====
-- Validation of the sections of a module but the segments and the code: Lib/IR/Validate.cpp.
use wavm.Prelude.{
  ℕ, suc, ◌+◌, Bool, true, false, not, ◌&&◌, ◌||◌, List, [], ◌∷◌, ltb, ◌==◌, length, get_elem?,
  if◌then◌else◌,
}
use wavm.Ir.Features.{Feature}
use wavm.Ir.Module.{
  Module, Name, Import, Export, FunctionDef, GlobalDef, InitializerExpression, space_size,
  function_type_index,
}
use wavm.Ir.Types.{
  FunctionType, GlobalType, ExternKind, convention_code, empty_function_type, function_type_eq,
  uptr_max,
}
use wavm.Validate.References.{
  Declared, validate_global_index, validate_function_type, validate_initializer,
}
use wavm.Validate.Result.{
  ValidationException, Result, ok, invalid, fault, ◌>>=◌, ◌>>◌, validate_unless, validate_index,
  validate_feature, in_range, assert,
}
use wavm.Validate.Types.{
  validate_table_type, validate_memory_type, validate_global_type, validate_type_tuple,
  validate_extern_kind,
}

-- A loop that checks each element.
unfoldable pub each {ℓ} : {A : Type ℓ} → (A → Result (Unit {0})) → List A → Result (Unit {0})
each f [] = ok tt
each f (a ∷ rest) = f a >> each f rest

abbrev pub feature_if : Module → Bool → Feature → Result (Unit {0})
feature_if m test f = if test then validate_feature m.feature_spec f else ok tt

abbrev pub is_wasm : FunctionType → Bool
is_wasm type = convention_code type.calling_convention == 0

-- The body of the loop of `validateTypes`.
unfoldable pub validate_type_def : Module → FunctionType → Result (Unit {0})
validate_type_def m type = do
  validate_type_tuple m type.params
  validate_type_tuple m type.results
  feature_if m (ltb 1 (length type.results)) Feature.multiple_results_and_block_params
  feature_if m (not (is_wasm type)) Feature.non_wasm_function_types

unfoldable pub validate_types : Module → Result (Unit {0})
unfolding each validate_type_def
validate_types m = each (validate_type_def m) m.types

-- The loop over the function imports, from the import of index `i` on.
unfoldable pub validate_function_imports : Module → ℕ → List (Import ℕ) → Declared → Result Declared
validate_function_imports m i [] declared = ok declared
validate_function_imports m i (x ∷ imports) declared = do
  _ ← validate_function_type m x.type
  validate_function_imports m (suc i) imports
      (record { kind = ExternKind.function; index = i } ∷ declared)

unfoldable pub validate_global_import : Module → Import GlobalType → Result (Unit {0})
validate_global_import m x = do
  validate_global_type m x.type
  feature_if m x.type.is_mutable Feature.import_export_mutable_globals

-- The number of imports of all kinds.
abbrev pub num_imports : Module → ℕ
num_imports m =
    length m.functions.imports
    + length m.tables.imports
    + length m.memories.imports
    + length m.globals.imports
    + length m.exception_types.imports

abbrev pub validate_table_count : Module → Result (Unit {0})
validate_table_count m = feature_if m (ltb 1 (space_size m.tables)) Feature.reference_types

abbrev pub validate_memory_count : Module → Result (Unit {0})
validate_memory_count m = feature_if m (ltb 1 (space_size m.memories)) Feature.multiple_memories

unfoldable pub validate_imports : Module → Declared → Result Declared
unfolding each validate_function_imports validate_global_import
validate_imports m declared = do
  assert (length m.imports == num_imports m)
  added ← validate_function_imports m 0 m.functions.imports declared
  each (λ x. validate_table_type m x.type) m.tables.imports
  each (λ x. validate_memory_type m x.type) m.memories.imports
  each (validate_global_import m) m.globals.imports
  each (λ x. validate_type_tuple m x.type.params) m.exception_types.imports
  validate_table_count m
  validate_memory_count m
  ok added

unfoldable pub validate_function_declaration : Module → FunctionDef → Result (Unit {0})
validate_function_declaration m def = do
  type ← validate_function_type m def.type
  if not (is_wasm type) then invalid ValidationException.non_wasm_function_definition else ok tt

unfoldable pub validate_function_declarations : Module → Result (Unit {0})
unfolding each validate_function_declaration
validate_function_declarations m = each (validate_function_declaration m) m.functions.defs

abbrev declare_initializer : InitializerExpression → Declared → Declared
declare_initializer (InitializerExpression.ref_func i) declared =
    record { kind = ExternKind.function; index = i } ∷ declared
declare_initializer initializer declared = declared

unfoldable pub validate_global_defs : Module → List GlobalDef → Declared → Result Declared
validate_global_defs m [] declared = ok declared
validate_global_defs m (def ∷ defs) declared = do
  validate_global_type m def.type
  validate_initializer m def.initializer def.type.value_type
  validate_global_defs m defs (declare_initializer def.initializer declared)

unfoldable pub validate_exception_type_defs : Module → Result (Unit {0})
unfolding each
validate_exception_type_defs m =
    each (λ def. validate_type_tuple m def.params) m.exception_types.defs

unfoldable pub validate_table_defs : Module → Result (Unit {0})
unfolding each
validate_table_defs m = each (validate_table_type m) m.tables.defs >> validate_table_count m

unfoldable pub validate_memory_defs : Module → Result (Unit {0})
unfolding each
validate_memory_defs m = each (validate_memory_type m) m.memories.defs >> validate_memory_count m

-- The `switch` of the loop of `validateExports`.
unfoldable pub validate_export_index : Module → ExternKind → ℕ → Declared → Result Declared
validate_export_index m ExternKind.function i declared = do
  validate_index i (space_size m.functions)
  ok (record { kind = ExternKind.function; index = i } ∷ declared)
validate_export_index m ExternKind.table i declared =
    validate_index i (space_size m.tables) >> ok declared
validate_export_index m ExternKind.memory i declared =
    validate_index i (space_size m.memories) >> ok declared
validate_export_index m ExternKind.global i declared = do
  _ ←
      validate_global_index m i false
        (not (m.feature_spec.enabled Feature.import_export_mutable_globals)) false
  ok declared
validate_export_index m ExternKind.exception_type i declared =
    validate_index i (space_size m.exception_types) >> ok declared
validate_export_index m ExternKind.invalid i declared = fault

unfoldable pub name_eq : Name → Name → Bool
name_eq [] [] = true
name_eq [] (b ∷ bs) = false
name_eq (a ∷ rest) [] = false
name_eq (a ∷ rest) (b ∷ bs) = a == b && name_eq rest bs

-- `exportNameSet.contains`
unfoldable pub contains_name : List Name → Name → Bool
unfolding name_eq
contains_name [] name = false
contains_name (a ∷ names) name = name_eq a name || contains_name names name

unfoldable pub validate_exports : Module → List Export → List Name → Declared → Result Declared
unfolding contains_name validate_export_index
validate_exports m [] names declared = ok declared
validate_exports m (x ∷ exports) names declared = do
  validate_extern_kind m x.kind
  added ← validate_export_index m x.kind x.index declared
  validate_unless ValidationException.duplicate_export (contains_name names x.name)
  validate_exports m exports (x.name ∷ names) added

unfoldable pub validate_start_function : Module → Result (Unit {0})
validate_start_function m =
    if not (m.start_function_index == uptr_max)
    then (do
      validate_index m.start_function_index (space_size m.functions)
      type_index ← in_range (function_type_index m m.start_function_index)
      type ← in_range (get_elem? m.types type_index)
      validate_unless ValidationException.start_function_signature
          (not (function_type_eq type empty_function_type)))
    else ok tt
