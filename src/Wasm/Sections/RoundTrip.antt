-- ===== src/Wasm/Sections/RoundTrip.antt =====
-- Sections as they are written and read back, with the byte that names them.
use wavm.Prelude.{
  ℕ, ◌^◌, ◌<◌, ◌≡◌, ap, subst, sym, true, false, List, [], length, leb, ltb, ◌==◌, ◌≤◌, Option,
  none, some, if◌then◌else◌, arith,
}
use mathlib.Core.List.{append-nil}
use wavm.Ir.Types.{FunctionType, TableType, MemoryType, ExceptionType}
use wavm.Ir.Module.{Export, GlobalDef, ElemSegment, DataSegment}
use wavm.Inline.Serialization.{
  FatalSerializationException, Reader, ok, ◌>>=◌, pure, throw, Written, bytes, next_byte,
}
use wavm.Inline.Serialization.Reads.{
  Reads, Reads-bind, Reads-before, Reads-elements, Reads-after, Reads-next_byte, Reads-advance,
  Every,
}
use wavm.Inline.Leb128.Formats.{
  var_uint32, var_uint32_of_u32, write_uint, write_array, Reads-uint, Reads-uint32, Reads-array,
}
use wavm.Wasm.Types.RoundTrip.{
  IsEncodable, IsTable, FitsIndex, Reads-table_type, Reads-memory_type, Reads-exception_type,
}
use wavm.Wasm.Types.{write_table_type, write_memory_type, write_exception_type}
use wavm.Wasm.Definitions.{write_function_type, write_export}
use wavm.Wasm.Definitions.RoundTrip.{IsFunction, IsExport, Reads-function_type, Reads-export}
use wavm.Wasm.Initializers.{write_global_def}
use wavm.Wasm.Initializers.RoundTrip.{IsGlobal, Reads-global_def}
use wavm.Wasm.Segments.{write_elem_segment, write_data_segment}
use wavm.Wasm.Segments.RoundTrip.{
  IsMode, AreElements, IsDataSegment, Reads-elem_segment, Reads-data_segment,
}
use wavm.Wasm.Sections.{
  write_global_section, read_global_section, write_elem_section, read_elem_section,
  check_num_data_segments, write_data_count_section, read_data_count_section, write_data_section,
  read_data_section, SectionId, section_code, write_sized, write_section, ended, read_section,
  write_type_section, read_type_section, read_function_type_index, write_function_section,
  read_function_section, write_table_section, read_table_section, write_memory_section,
  read_memory_section, write_exception_type_section, read_exception_type_section,
  write_export_section, read_export_section, write_start_section, read_start_section,
}

-- A reader, after the byte that names the section.
abbrev pub after_id : {A : Type 0} → Reader A → Reader A
after_id read = next_byte >>= λ id. read

-- A section whose bytes, however many, have a size that can be written.
abbrev pub IsSized : Written → Type 0
IsSized written = (out : List ℕ) → written ≡ bytes out → length out < 2 ^ 32

sized :
    {A : Type 0} {w : Written} {r : Reader A} {a : A}
    → (x : Reads w r a) → length x.out < 2 ^ 32
    → Reads (write_sized w) (read_section r) a
sized {r} {a} x h =
    subst (λ v. Reads (write_sized v) (read_section r) a) (sym x.writes)
      (Reads-after _ (Reads-bind _ (Reads-uint32 (length x.out) h) (Reads-advance x.out))
        (λ s. ap (λ v. ended v s) (subst (λ l. r l ≡ ok a []) (append-nil x.out) (x.reads []))))

-- A section is read back if its contents are, to their end.
pub Reads-section :
    {A : Type 0} {w : Written} {r : Reader A} {a : A} (id : SectionId)
    → Reads w r a
    → IsSized w
    → Reads (write_section id w) (after_id (read_section r)) a
Reads-section id x h = Reads-bind _ (Reads-next_byte (section_code id)) (sized x (h x.out x.writes))

-- The types of a module are read back from the type section that was written for them.
pub Reads-type_section :
    (types : List FunctionType)
    → length types < 2 ^ 32
    → Every IsFunction types
    → IsSized (write_array write_function_type types)
    → Reads (write_type_section types) (after_id read_type_section) types
Reads-type_section types n h s =
    Reads-section SectionId.type (Reads-array Reads-function_type types n h) s

known_index :
    (num_types index : ℕ)
    → num_types < 2 ^ 32
    → index < num_types
    → Reads (write_uint var_uint32_of_u32 index) (read_function_type_index num_types) index
known_index num_types index m h =
    Reads-after _
      (Reads-uint 32 32 index (omega arith) (omega arith) (omega arith) (omega (arith, m, h)))
      (λ s.
        ap
          (λ b.
            (if b
                then throw FatalSerializationException.invalid_function_type_index
                else pure index)
              s)
          (below h))
  where
    below : index < num_types → leb num_types index ≡ false
    below h = ground arith

-- The type indices of a module's functions are read back, if they are below the number of types.
pub Reads-function_section :
    (num_types : ℕ) (indices : List ℕ)
    → num_types < 2 ^ 32
    → length indices < 2 ^ 32
    → Every (λ index. index < num_types) indices
    → IsSized (write_array (write_uint var_uint32_of_u32) indices)
    → Reads (write_function_section indices) (after_id (read_function_section num_types)) indices
Reads-function_section num_types indices m n h s =
    Reads-section SectionId.function
      (Reads-array (λ index. known_index num_types index m) indices n h) s

pub Reads-table_section :
    (defs : List TableType)
    → length defs < 2 ^ 32
    → Every IsTable defs
    → IsSized (write_array write_table_type defs)
    → Reads (write_table_section defs) (after_id read_table_section) defs
Reads-table_section defs n h s =
    Reads-section SectionId.table (Reads-array Reads-table_type defs n h) s

pub Reads-memory_section :
    (defs : List MemoryType)
    → length defs < 2 ^ 32
    → Every (λ def. FitsIndex def.index_type def.size) defs
    → IsSized (write_array write_memory_type defs)
    → Reads (write_memory_section defs) (after_id read_memory_section) defs
Reads-memory_section defs n h s =
    Reads-section SectionId.memory (Reads-array Reads-memory_type defs n h) s

pub Reads-exception_type_section :
    (defs : List ExceptionType)
    → length defs < 2 ^ 32
    → Every (λ def. IsEncodable def.params) defs
    → IsSized (write_array write_exception_type defs)
    → Reads (write_exception_type_section defs) (after_id read_exception_type_section) defs
Reads-exception_type_section defs n h s =
    Reads-section SectionId.exception_type (Reads-array Reads-exception_type defs n h) s

-- The exports of a module are read back from the export section that was written for them.
pub Reads-export_section :
    (exports : List Export)
    → length exports < 2 ^ 32
    → Every IsExport exports
    → IsSized (write_array write_export exports)
    → Reads (write_export_section exports) (after_id read_export_section) exports
Reads-export_section exports n h s =
    Reads-section SectionId.export (Reads-array Reads-export exports n h) s

pub Reads-start_section :
    (index : ℕ)
    → index < 2 ^ 32
    → IsSized (write_uint var_uint32 index)
    → Reads (write_start_section index) (after_id read_start_section) index
Reads-start_section index h s = Reads-section SectionId.start (Reads-uint32 index h) s

pub Reads-global_section :
    (defs : List GlobalDef)
    → length defs < 2 ^ 32
    → Every IsGlobal defs
    → IsSized (write_array write_global_def defs)
    → Reads (write_global_section defs) (after_id read_global_section) defs
Reads-global_section defs n h s =
    Reads-section SectionId.global (Reads-array Reads-global_def defs n h) s

abbrev pub IsElemSegment : ElemSegment → Type 0
IsElemSegment segment = IsMode segment.mode × AreElements segment.contents

pub Reads-elem_section :
    (segments : List ElemSegment)
    → length segments < 2 ^ 32
    → Every IsElemSegment segments
    → IsSized (write_array write_elem_segment segments)
    → Reads (write_elem_section segments) (after_id read_elem_section) segments
Reads-elem_section segments n h s =
    Reads-section SectionId.elem
      (Reads-array (λ segment (m, e). Reads-elem_segment segment m e) segments n h) s

-- That the number of data segments is what the module's features or its DataCount section allow.
abbrev pub IsCount : ℕ → Option ℕ → ℕ → Type 0
IsCount max_data_segments none n = n ≤ max_data_segments
IsCount max_data_segments (some count) n = n ≡ count

counted :
    (max_data_segments : ℕ) (had : Option ℕ) (n : ℕ)
    → IsCount max_data_segments had n
    → (s : List ℕ) → check_num_data_segments max_data_segments had n s ≡ ok n s
counted max_data_segments none n h s =
    ap (λ b. (if b then throw FatalSerializationException.too_many_data_segments else pure n) s)
      (below h)
  where
    below : n ≤ max_data_segments → ltb max_data_segments n ≡ false
    below h = ground arith
counted max_data_segments (some count) n h s =
    ap (λ b. (if b then pure n else throw FatalSerializationException.mismatched_segment_counts) s)
      (same h)
  where
    same : n ≡ count → (n == count) ≡ true
    same h = ground arith

pub Reads-data_count_section :
    (max_data_segments n : ℕ)
    → n < 2 ^ 32
    → n ≤ max_data_segments
    → IsSized (write_uint var_uint32 n)
    → Reads (write_data_count_section n) (after_id (read_data_count_section max_data_segments)) n
Reads-data_count_section max_data_segments n l h s =
    Reads-section SectionId.data_count
      (Reads-after _ (Reads-uint32 n l) (counted max_data_segments none n h)) s

-- The data segments of a module are read back from the data section that was written for them, after
-- a DataCount section with their number, or without one if the features allow as many.
pub Reads-data_section :
    (max_data_segments : ℕ) (had_data_count : Option ℕ) (segments : List DataSegment)
    → IsCount max_data_segments had_data_count (length segments)
    → length segments < 2 ^ 32
    → Every IsDataSegment segments
    → IsSized (write_array write_data_segment segments)
    → Reads
        (write_data_section segments)
        (after_id (read_data_section max_data_segments had_data_count))
        segments
Reads-data_section max_data_segments had segments c n h s =
    Reads-section SectionId.data_
      (Reads-bind _ (Reads-uint32 (length segments) n) (
        Reads-before _ (counted max_data_segments had (length segments) c)
          (Reads-elements Reads-data_segment segments h)))
      s
