-- ===== src/Runtime/Linker.antt =====
-- Linking: `linkModule` of Lib/Runtime/Linker.cpp and `isA` of Lib/Runtime/Runtime.cpp. The
-- resolver is the host's: it is a function of a state of its own, which it may change.
pub mod Resolution
use wavm.Prelude.{
  ℕ, ◌+◌, Bool, true, false, List, [], ◌∷◌, length, get_elem?, ◌==◌, Option, some, none,
  if◌then◌else◌,
}
use wavm.Ir.Types.{
  ExternType, ExternKind, FunctionType, is_global_subtype, is_table_subtype, is_memory_subtype,
  is_tuple_subtype, function_type_eq,
}
use wavm.Ir.Module.{Name, Module, Import, KindAndIndex}

-- An object of the runtime, with the type that `isA` reads of it.
pub record Object : Type 0 where
  pub address : ℕ
  pub type : ExternType

unfoldable pub is_type : ExternType → ExternType → Bool
is_type (ExternType.function object) (ExternType.function type) = function_type_eq object type
is_type (ExternType.global object) (ExternType.global type) = is_global_subtype object type
is_type (ExternType.table object) (ExternType.table type) = is_table_subtype object type
is_type (ExternType.memory object) (ExternType.memory type) = is_memory_subtype object type
is_type (ExternType.exception_type object) (ExternType.exception_type type) =
    is_tuple_subtype type.params object.params
is_type object type = false

abbrev pub is_a : Object → ExternType → Bool
is_a object type = is_type object.type type

-- What `resolve` returns, with the pointer that it stores; `found none` is a null pointer.
pub data Resolved : Type 0 where
  not_found : Resolved
  found : Option Object → Resolved

pub record Answer (S : Type 0) : Type 0 where
  pub state : S
  pub resolved : Resolved

abbrev pub Resolver : Type 0 → Type 0
Resolver S = S → Name → Name → ExternType → Answer S

-- Also what is asked of the resolver.
pub record MissingImport : Type 0 where
  pub module_name : Name
  pub export_name : Name
  pub type : ExternType

pub record LinkResult : Type 0 where
  pub missing_imports : List MissingImport
  pub resolved_imports : List (Option Object)
  pub success : Bool

abbrev request_of : {T : Type 0} → (T → ExternType) → Option (Import T) → Option MissingImport
request_of type_of (some i) =
    some
      (record { module_name = i.module_name; export_name = i.export_name; type = type_of i.type })
request_of type_of none = none

abbrev pub function_request : Module → Option (Import ℕ) → Option MissingImport
function_request m (some i) = elim (get_elem? m.types i.type) [
  | some type ↦ some (record {
    module_name = i.module_name;
    export_name = i.export_name;
    type = ExternType.function type;
  })
  | none ↦ none
]
function_request m none = none

-- The cases of the loop; `none` is WAVM_UNREACHABLE or a read out of range.
unfoldable pub request : Module → KindAndIndex → Option MissingImport
request m i = elim i.kind [
  | ExternKind.function ↦ function_request m (get_elem? m.functions.imports i.index)
  | ExternKind.table ↦ request_of ExternType.table (get_elem? m.tables.imports i.index)
  | ExternKind.memory ↦ request_of ExternType.memory (get_elem? m.memories.imports i.index)
  | ExternKind.global ↦ request_of ExternType.global (get_elem? m.globals.imports i.index)
  | ExternKind.exception_type ↦
      request_of ExternType.exception_type (get_elem? m.exception_types.imports i.index)
  | ExternKind.invalid ↦ none
]

-- The part of the result that is built from here on.
pub record Links : Type 0 where
  pub missing : List MissingImport
  pub resolved : List (Option Object)

abbrev pub push_resolved : Object → Option Links → Option Links
push_resolved object (some l) =
    some (record { missing = l.missing; resolved = some object ∷ l.resolved })
push_resolved object none = none

abbrev pub push_missing : MissingImport → Option Links → Option Links
push_missing r (some l) = some (record { missing = r ∷ l.missing; resolved = none ∷ l.resolved })
push_missing r none = none

-- linkImport, and the imports after it; `none` is a failed assertion.
abbrev pub link_import : MissingImport → Resolved → Option Links → Option Links
link_import r not_found rest = push_missing r rest
link_import r (found none) rest = none
link_import r (found (some object)) rest =
    if is_a object r.type then push_resolved object rest else none

unfoldable pub link_imports :
    {S : Type 0} → Module → Resolver S → List KindAndIndex → S → Option Links
unfolding request
link_imports m resolve [] s = some (record { missing = []; resolved = [] })
link_imports m resolve (i ∷ imports) s = elim (request m i) [
  | some r ↦
      link_import r (resolve s r.module_name r.export_name r.type).resolved
        (link_imports m resolve imports (resolve s r.module_name r.export_name r.type).state)
  | none ↦ none
]

abbrev pub num_imports : Module → ℕ
num_imports m =
    length m.functions.imports
    + length m.tables.imports
    + length m.memories.imports
    + length m.globals.imports
    + length m.exception_types.imports

abbrev pub is_empty : List MissingImport → Bool
is_empty missing = length missing == 0

abbrev pub link_result : Option Links → Option LinkResult
link_result (some l) = some (record {
  missing_imports = l.missing;
  resolved_imports = l.resolved;
  success = is_empty l.missing;
})
link_result none = none

unfoldable pub link_module : {S : Type 0} → Module → Resolver S → S → Option LinkResult
unfolding link_imports
link_module m resolve s =
    if length m.imports == num_imports m
    then link_result (link_imports m resolve m.imports s)
    else none
