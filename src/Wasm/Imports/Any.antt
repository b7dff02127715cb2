-- ===== src/Wasm/Imports/Any.antt =====
-- One import as it is written and read back.
use wavm.Prelude.{ℕ, ◌^◌, ◌<◌, ◌≡◌, ◌≢◌, ap, true, false, List, length, leb, if◌then◌else◌, arith}
use wavm.Ir.Types.{ExternKind}
use wavm.Ir.Module.{Name, Import}
use wavm.Inline.Serialization.{FatalSerializationException, ok, ◌>>=◌, pure, throw, Written, ◌<>◌}
use wavm.Inline.Serialization.Reads.{Reads, Reads-bind, Reads-map, Reads-before, Reads-after}
use wavm.Inline.Leb128.Formats.{var_uint32_of_u32, write_uint, Reads-uint}
use wavm.Wasm.Types.{write_table_type, write_memory_type, write_global_type, write_exception_type}
use wavm.Wasm.Types.RoundTrip.{
  IsConcrete, IsEncodable, FitsIndex, IsTable, Reads-table_type, Reads-memory_type,
  Reads-global_type, Reads-exception_type,
}
use wavm.Wasm.Definitions.{is_valid_utf8, read_if_valid_utf8, write_kind, read_kind}
use wavm.Wasm.Definitions.RoundTrip.{Reads-string, Reads-kind}
use wavm.Wasm.Imports.{AnyImport, import_of, read_import_type, read_import, write_names}

-- Two valid names that have an encoding.
pub record HasNames {T : Type 0} (i : Import T) : Type 0 where
  pub module_valid : is_valid_utf8 i.module_name ≡ true
  pub export_valid : is_valid_utf8 i.export_name ≡ true
  pub module_size : length i.module_name < 2 ^ 32
  pub export_size : length i.export_name < 2 ^ 32

-- An import of which the type has an encoding, a function's a type index in range.
abbrev pub IsImport : ℕ → AnyImport → Type 0
IsImport num_types (AnyImport.function i) = HasNames i × (i.type < num_types)
IsImport num_types (AnyImport.table i) = HasNames i × IsTable i.type
IsImport num_types (AnyImport.memory i) = HasNames i × FitsIndex i.type.index_type i.type.size
IsImport num_types (AnyImport.global i) = HasNames i × IsConcrete i.type.value_type
IsImport num_types (AnyImport.exception_type i) = HasNames i × IsEncodable i.type.params

-- What is written for an import.
abbrev pub write_any : AnyImport → Written
write_any (AnyImport.function i) =
    write_names i ExternKind.function (write_uint var_uint32_of_u32 i.type)
write_any (AnyImport.table i) = write_names i ExternKind.table (write_table_type i.type)
write_any (AnyImport.memory i) = write_names i ExternKind.memory (write_memory_type i.type)
write_any (AnyImport.global i) = write_names i ExternKind.global (write_global_type i.type)
write_any (AnyImport.exception_type i) =
    write_names i ExternKind.exception_type (write_exception_type i.type)

-- The names are read, tested, and followed by the kind.
named :
    {T : Type 0} (num_types : ℕ) (i : Import T) (kind : ExternKind) {w : Written} {any : AnyImport}
    → HasNames i
    → kind ≢ ExternKind.invalid
    → Reads w (read_import_type num_types i.module_name i.export_name kind) any
    → Reads (write_names i kind w) (read_import num_types) any
named num_types i kind {w} {any} h k x =
    Reads-bind _ (Reads-string i.module_name h.module_size)
      (Reads-bind _ (Reads-string i.export_name h.export_size) valid)
  where
    rest :
        Reads
          (write_kind kind <> w)
          (read_kind >>= λ k. read_import_type num_types i.module_name i.export_name k)
          any
    rest = Reads-bind _ (Reads-kind kind k) x

    passes :
        (name : Name)
        → is_valid_utf8 name ≡ true
        → (s : List ℕ) → read_if_valid_utf8 name s ≡ ok name s
    passes name e s =
        ap (λ b. (if b then pure name else throw FatalSerializationException.invalid_utf8) s) e

    valid :
        Reads
          (write_kind kind <> w)
          (read_if_valid_utf8 i.module_name >>= λ m. read_if_valid_utf8 i.export_name >>= λ e.
            read_kind >>= λ k. read_import_type num_types m e k)
          any
    valid =
        Reads-before _ (passes i.module_name h.module_valid)
          (Reads-before _ (passes i.export_name h.export_valid) rest)

pub Reads-any :
    (num_types : ℕ) (any : AnyImport)
    → num_types < 2 ^ 32
    → IsImport num_types any
    → Reads (write_any any) (read_import num_types) any
Reads-any num_types (AnyImport.function i) n (h, t) =
    named num_types i ExternKind.function h (λ e. cc)
      (Reads-map (λ type. AnyImport.function (import_of i.module_name i.export_name type))
        (Reads-after _
          (Reads-uint 32 32 i.type (omega arith) (omega arith) (omega arith) (omega (arith, n, t)))
          (λ s.
            ap
              (λ b.
                (if b
                    then throw FatalSerializationException.invalid_import_function_type_index
                    else pure i.type)
                  s)
              (below num_types i.type t))))
  where
    below : (n t : ℕ) → t < n → leb n t ≡ false
    below n t h = ground arith
Reads-any num_types (AnyImport.table i) n (h, t) =
    named num_types i ExternKind.table h (λ e. cc)
      (Reads-map (λ type. AnyImport.table (import_of i.module_name i.export_name type))
        (Reads-table_type i.type t))
Reads-any num_types (AnyImport.memory i) n (h, t) =
    named num_types i ExternKind.memory h (λ e. cc)
      (Reads-map (λ type. AnyImport.memory (import_of i.module_name i.export_name type))
        (Reads-memory_type i.type t))
Reads-any num_types (AnyImport.global i) n (h, t) =
    named num_types i ExternKind.global h (λ e. cc)
      (Reads-map (λ type. AnyImport.global (import_of i.module_name i.export_name type))
        (Reads-global_type i.type t))
Reads-any num_types (AnyImport.exception_type i) n (h, t) =
    named num_types i ExternKind.exception_type h (λ e. cc)
      (Reads-map (λ type. AnyImport.exception_type (import_of i.module_name i.export_name type))
        (Reads-exception_type i.type t))
