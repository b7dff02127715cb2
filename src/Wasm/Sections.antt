-- ===== src/Wasm/Sections.antt =====
-- The sections of a module, but those of imports and code:
-- Lib/WASM/WASMSerialization.cpp. The byte that names a section is read by the loop over the
-- sections, before the section.
pub mod RoundTrip
pub mod Errors
use wavm.Prelude.{
  ℕ, Bool, true, false, List, [], ◌∷◌, length, leb, ltb, ◌==◌, Option, none, some, if◌then◌else◌,
}
use wavm.Ir.Types.{FunctionType, TableType, MemoryType, ExceptionType}
use wavm.Ir.Module.{Export, GlobalDef, ElemSegment, DataSegment}
use wavm.Inline.Serialization.{
  FatalSerializationException, Read, Reader, ok, fatal, ◌>>=◌, pure, throw, Written, bytes, failed,
  unreachable, unfinished, ◌<>◌, advance, read_elements,
}
use wavm.Inline.Leb128.Formats.{
  var_uint32, var_uint32_of_u32, write_uint, read_uint, write_array, read_array,
}
use wavm.Wasm.Types.{
  write_table_type, read_table_type, write_memory_type, read_memory_type, write_exception_type,
  read_exception_type,
}
use wavm.Wasm.Initializers.{write_global_def, read_global_def}
use wavm.Wasm.Segments.{
  write_elem_segment, read_elem_segment, write_data_segment, read_data_segment,
}
use wavm.Wasm.Definitions.{write_export, read_export, write_function_type, read_function_type}

pub data SectionId : Type 0 where
  custom type import function table memory global export start elem code data_ data_count
        exception_type :
      SectionId

abbrev pub section_code : SectionId → ℕ
section_code SectionId.custom = 0
section_code SectionId.type = 1
section_code SectionId.import = 2
section_code SectionId.function = 3
section_code SectionId.table = 4
section_code SectionId.memory = 5
section_code SectionId.global = 6
section_code SectionId.export = 7
section_code SectionId.start = 8
section_code SectionId.elem = 9
section_code SectionId.code = 10
section_code SectionId.data_ = 11
section_code SectionId.data_count = 12
section_code SectionId.exception_type = 127

-- The size of a section's bytes, and these.
abbrev pub write_sized : Written → Written
write_sized (bytes section) = write_uint var_uint32 (length section) <> bytes section
write_sized (failed e) = failed e
write_sized unreachable = unreachable
write_sized unfinished = unfinished

abbrev pub write_section : SectionId → Written → Written
write_section id body = bytes (section_code id ∷ []) <> write_sized body

-- That a section's stream is at its end.
abbrev pub ended : {A : Type 0} → Read A → Reader A
ended (ok a []) rest = ok a rest
ended (ok a (b ∷ more)) rest = fatal FatalSerializationException.section_contained_more_data
ended (fatal e) rest = fatal e

abbrev pub read_section : {A : Type 0} → Reader A → Reader A
read_section body = (read_uint var_uint32 >>= advance) >>= λ section. ended (body section)

abbrev pub write_type_section : List FunctionType → Written
write_type_section types = write_section SectionId.type (write_array write_function_type types)

abbrev pub read_type_section : Reader (List FunctionType)
read_type_section = read_section (read_array read_function_type)

-- The types of the defined functions, which the reader tests against the number of types.
abbrev pub read_function_type_index : ℕ → Reader ℕ
read_function_type_index num_types = read_uint var_uint32_of_u32 >>= λ index.
    if leb num_types index
    then throw FatalSerializationException.invalid_function_type_index
    else pure index

abbrev pub write_function_section : List ℕ → Written
write_function_section indices =
    write_section SectionId.function (write_array (write_uint var_uint32_of_u32) indices)

abbrev pub read_function_section : ℕ → Reader (List ℕ)
read_function_section num_types = read_section (read_array (read_function_type_index num_types))

abbrev pub write_table_section : List TableType → Written
write_table_section defs = write_section SectionId.table (write_array write_table_type defs)

abbrev pub read_table_section : Reader (List TableType)
read_table_section = read_section (read_array read_table_type)

abbrev pub write_memory_section : List MemoryType → Written
write_memory_section defs = write_section SectionId.memory (write_array write_memory_type defs)

abbrev pub read_memory_section : Reader (List MemoryType)
read_memory_section = read_section (read_array read_memory_type)

abbrev pub write_exception_type_section : List ExceptionType → Written
write_exception_type_section defs =
    write_section SectionId.exception_type (write_array write_exception_type defs)

abbrev pub read_exception_type_section : Reader (List ExceptionType)
read_exception_type_section = read_section (read_array read_exception_type)

abbrev pub write_export_section : List Export → Written
write_export_section exports = write_section SectionId.export (write_array write_export exports)

abbrev pub read_export_section : Reader (List Export)
read_export_section = read_section (read_array read_export)

abbrev pub write_start_section : ℕ → Written
write_start_section start_function_index =
    write_section SectionId.start (write_uint var_uint32 start_function_index)

abbrev pub read_start_section : Reader ℕ
read_start_section = read_section (read_uint var_uint32)

abbrev pub write_global_section : List GlobalDef → Written
write_global_section defs = write_section SectionId.global (write_array write_global_def defs)

abbrev pub read_global_section : Reader (List GlobalDef)
read_global_section = read_section (read_array read_global_def)

abbrev pub write_elem_section : List ElemSegment → Written
write_elem_section segments = write_section SectionId.elem (write_array write_elem_segment segments)

abbrev pub read_elem_section : Reader (List ElemSegment)
read_elem_section = read_section (read_array read_elem_segment)

-- How many data segments there may be, or must be: the bound of the features, or what a DataCount
-- section said.
abbrev pub check_num_data_segments : ℕ → Option ℕ → ℕ → Reader ℕ
check_num_data_segments max_data_segments none n =
    if ltb max_data_segments n
    then throw FatalSerializationException.too_many_data_segments
    else pure n
check_num_data_segments max_data_segments (some count) n =
    if n == count then pure n else throw FatalSerializationException.mismatched_segment_counts

abbrev pub write_data_count_section : ℕ → Written
write_data_count_section num_data_segments =
    write_section SectionId.data_count (write_uint var_uint32 num_data_segments)

abbrev pub read_data_count_section : ℕ → Reader ℕ
read_data_count_section max_data_segments =
    read_section (read_uint var_uint32 >>= check_num_data_segments max_data_segments none)

abbrev pub write_data_section : List DataSegment → Written
write_data_section segments =
    write_section SectionId.data_ (write_array write_data_segment segments)

abbrev pub read_data_section : ℕ → Option ℕ → Reader (List DataSegment)
read_data_section max_data_segments had_data_count = read_section (
    read_uint var_uint32 >>= λ n.
    check_num_data_segments max_data_segments had_data_count n >>= λ n.
    read_elements read_data_segment n)
