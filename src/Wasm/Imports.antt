-- ===== src/Wasm/Imports.antt =====
-- The import section: Lib/WASM/WASMSerialization.cpp.
pub mod Any
pub mod Pushed
pub mod RoundTrip
use wavm.Prelude.{
  ℕ, zero, suc, ◌+◌, Bool, List, [], ◌∷◌, ◌++◌, length, leb, ◌==◌, get_elem?, Option, some, none,
  if◌then◌else◌,
}
use wavm.Ir.Types.{TableType, MemoryType, GlobalType, ExceptionType, ExternKind}
use wavm.Ir.Module.{Name, Import, KindAndIndex}
use wavm.Inline.Serialization.{
  FatalSerializationException, Reader, ◌>>=◌, pure, throw, Written, bytes, unreachable, ◌<>◌,
}
use wavm.Inline.Leb128.Formats.{var_uint32, var_uint32_of_u32, write_uint, read_uint}
use wavm.Wasm.Types.{
  write_table_type, read_table_type, write_memory_type, read_memory_type, write_global_type,
  read_global_type, write_exception_type, read_exception_type,
}
use wavm.Wasm.Definitions.{read_if_valid_utf8, write_string, read_string, write_kind, read_kind}
use wavm.Wasm.Sections.{SectionId, write_section, read_section}

-- The part of a module that the section fills.
pub record Imports : Type 0 where
  pub functions : List (Import ℕ)
  pub tables : List (Import TableType)
  pub memories : List (Import MemoryType)
  pub globals : List (Import GlobalType)
  pub exception_types : List (Import ExceptionType)
  pub imports : List KindAndIndex

abbrev pub no_imports : Imports
no_imports = record {
  functions = [];
  tables = [];
  memories = [];
  globals = [];
  exception_types = [];
  imports = [];
}

-- An import of any kind, with its type.
pub data AnyImport : Type 0 where
  function : Import ℕ → AnyImport
  table : Import TableType → AnyImport
  memory : Import MemoryType → AnyImport
  global : Import GlobalType → AnyImport
  exception_type : Import ExceptionType → AnyImport

abbrev pub kind_and_index : ExternKind → ℕ → KindAndIndex
kind_and_index kind index = record { kind = kind; index = index }

-- The `push_back` on the imports of its kind, and that on all imports.
abbrev pub push_import : AnyImport → Imports → Imports
push_import (AnyImport.function i) m = record {
  functions = m.functions ++ i ∷ [];
  tables = m.tables;
  memories = m.memories;
  globals = m.globals;
  exception_types = m.exception_types;
  imports = m.imports ++ kind_and_index ExternKind.function (length m.functions) ∷ [];
}
push_import (AnyImport.table i) m = record {
  functions = m.functions;
  tables = m.tables ++ i ∷ [];
  memories = m.memories;
  globals = m.globals;
  exception_types = m.exception_types;
  imports = m.imports ++ kind_and_index ExternKind.table (length m.tables) ∷ [];
}
push_import (AnyImport.memory i) m = record {
  functions = m.functions;
  tables = m.tables;
  memories = m.memories ++ i ∷ [];
  globals = m.globals;
  exception_types = m.exception_types;
  imports = m.imports ++ kind_and_index ExternKind.memory (length m.memories) ∷ [];
}
push_import (AnyImport.global i) m = record {
  functions = m.functions;
  tables = m.tables;
  memories = m.memories;
  globals = m.globals ++ i ∷ [];
  exception_types = m.exception_types;
  imports = m.imports ++ kind_and_index ExternKind.global (length m.globals) ∷ [];
}
push_import (AnyImport.exception_type i) m = record {
  functions = m.functions;
  tables = m.tables;
  memories = m.memories;
  globals = m.globals;
  exception_types = m.exception_types ++ i ∷ [];
  imports = m.imports ++ kind_and_index ExternKind.exception_type (length m.exception_types) ∷ [];
}

abbrev pub import_of : {T : Type 0} → Name → Name → T → Import T
import_of module_name export_name type = record {
  type = type;
  module_name = module_name;
  export_name = export_name;
}

-- The type of a function is an index that the reader tests.
abbrev pub read_import_function_type : ℕ → Reader ℕ
read_import_function_type num_types = read_uint var_uint32_of_u32 >>= λ index.
    if leb num_types index
    then throw FatalSerializationException.invalid_import_function_type_index
    else pure index

abbrev pub read_import_type : ℕ → Name → Name → ExternKind → Reader AnyImport
read_import_type num_types m e ExternKind.function =
    read_import_function_type num_types >>= λ type. pure (AnyImport.function (import_of m e type))
read_import_type num_types m e ExternKind.table =
    read_table_type >>= λ type. pure (AnyImport.table (import_of m e type))
read_import_type num_types m e ExternKind.memory =
    read_memory_type >>= λ type. pure (AnyImport.memory (import_of m e type))
read_import_type num_types m e ExternKind.global =
    read_global_type >>= λ type. pure (AnyImport.global (import_of m e type))
read_import_type num_types m e ExternKind.exception_type =
    read_exception_type >>= λ type. pure (AnyImport.exception_type (import_of m e type))
read_import_type num_types m e ExternKind.invalid =
    throw FatalSerializationException.invalid_reference_type_encoding

abbrev pub read_import : ℕ → Reader AnyImport
read_import num_types = read_string >>= λ module_name. read_string >>= λ export_name.
    read_if_valid_utf8 module_name >>= λ m. read_if_valid_utf8 export_name >>= λ e.
    read_kind >>= λ kind. read_import_type num_types m e kind

-- The loop that reads `size` imports.
unfoldable pub read_imports : ℕ → ℕ → Imports → Reader Imports
read_imports num_types zero m = pure m
read_imports num_types (suc size) m =
    read_import num_types >>= λ i s. read_imports num_types size (push_import i m) s

abbrev pub read_import_section : ℕ → Reader Imports
read_import_section num_types =
    read_section (read_uint var_uint32 >>= λ size. read_imports num_types size no_imports)

abbrev pub write_names : {T : Type 0} → Import T → ExternKind → Written → Written
write_names i kind type =
    write_string i.module_name <> write_string i.export_name <> write_kind kind <> type

abbrev pub write_found : {T : Type 0} → ExternKind → (T → Written) → Option (Import T) → Written
write_found kind write (some i) = write_names i kind (write i.type)
write_found kind write none = unreachable

-- One turn of the loop that writes. An index out of range is read in the source; here it is
-- `unreachable`.
abbrev pub write_import : Imports → KindAndIndex → Written
write_import m i = elim i.kind [
  | ExternKind.function ↦
      write_found ExternKind.function (write_uint var_uint32_of_u32) (get_elem? m.functions i.index)
  | ExternKind.table ↦ write_found ExternKind.table write_table_type (get_elem? m.tables i.index)
  | ExternKind.memory ↦
      write_found ExternKind.memory write_memory_type (get_elem? m.memories i.index)
  | ExternKind.global ↦
      write_found ExternKind.global write_global_type (get_elem? m.globals i.index)
  | ExternKind.exception_type ↦
      write_found ExternKind.exception_type write_exception_type
        (get_elem? m.exception_types i.index)
  | ExternKind.invalid ↦ unreachable
]

unfoldable pub write_imports : Imports → List KindAndIndex → Written
write_imports m [] = bytes []
write_imports m (i ∷ imports) = write_import m i <> write_imports m imports

abbrev pub num_imports : Imports → ℕ
num_imports m =
    length m.functions
    + length m.tables
    + length m.memories
    + length m.globals
    + length m.exception_types

-- The size, the assertion on it, and the loop.
abbrev pub write_import_section : Imports → Written
write_import_section m = write_section SectionId.import (
    write_uint var_uint32 (num_imports m)
    <> (if length m.imports == num_imports m then write_imports m m.imports else unreachable))
