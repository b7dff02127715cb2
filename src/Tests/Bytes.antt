-- ===== src/Tests/Bytes.antt =====
-- Bytes of small values, and the sections of a small module.
use wavm.Prelude.{
  ℕ, ◌^◌, ◌<◌, ◌≡◌, refl, sym, subst, ◌∙◌, inr, true, List, [], ◌∷◌, ◌++◌, length, some, negsuc,
  arith,
}
use wavm.Ir.Types.{
  ValueType, ReferenceType, CallingConvention, FunctionType, IndexType, TableType, ExternKind,
  u64_max, is_numeric_type, is_reference_type,
}
use wavm.Ir.Module.{InitializerExpression, Export, ElemContents, ElemMode, ElemSegment, DataSegment}
use wavm.Inline.Unicode.{
  validate_utf8_string, each_code_point, decode_utf8_code_point, encode_utf8_code_point,
}
use wavm.Inline.Serialization.{
  FatalSerializationException, ok, fatal, Written, bytes, next_byte, write_elements,
}
use wavm.Inline.Serialization.Reads.{Reads, Every}
use wavm.Inline.Leb128.{read_var_int, write_var_int, write_digits, read_digits, digits_value}
use wavm.Inline.Leb128.RoundTrip.{read_var_int-write_var_int}
use wavm.Inline.Leb128.Formats.{var_int32}
use wavm.Wasm.Types.{write_table_type, read_table_type}
use wavm.Wasm.Types.RoundTrip.{Reads-table_type}
use wavm.Wasm.Definitions.{write_function_type, read_function_type}
use wavm.Wasm.Definitions.RoundTrip.{IsFunction, Reads-function_type}
use wavm.Wasm.Initializers.{bit_or, read_opcode, write_initializer, read_initializer}
use wavm.Wasm.Initializers.RoundTrip.{Reads-initializer}
use wavm.Wasm.Segments.{
  write_elem_segment, read_elem_segment, write_data_segment, read_data_segment,
}
use wavm.Wasm.Segments.RoundTrip.{Reads-elem_segment, Reads-data_segment}
use wavm.Wasm.Sections.{
  write_type_section, read_type_section, write_function_section, read_function_section,
  write_export_section, read_export_section, write_data_section, read_data_section,
}
use wavm.Wasm.Sections.RoundTrip.{
  after_id, IsSized, Reads-type_section, Reads-function_section, Reads-export_section,
  Reads-data_section,
}
use wavm.Wasm.Sections.Errors.{read_type_section_overlong}
use wavm.Wasm.Imports.{AnyImport, write_imports, write_import_section, read_import_section}
use wavm.Wasm.Imports.Any.{IsImport}
use wavm.Wasm.Imports.Pushed.{push_all}
use wavm.Wasm.Imports.RoundTrip.{pushed, Reads-import_section}

minus_one : write_var_int var_int32 (negsuc 0) ≡ some (bytes (127 ∷ []))
unfolding write_var_int write_digits
minus_one = refl

-- The last of five bytes has bits that do not agree with the sign.
bad_sign :
    read_var_int var_int32 (255 ∷ 255 ∷ 255 ∷ 255 ∷ 79 ∷ [])
    ≡ fatal FatalSerializationException.unused_sign_bits
unfolding read_var_int read_digits digits_value
bad_sign = refl

cut_short :
    read_var_int var_int32 (255 ∷ 255 ∷ []) ≡ fatal FatalSerializationException.expected_data
unfolding read_var_int read_digits digits_value
cut_short = refl

-- The bytes fd 8c fa 03 are read as the opcode of v128.const, fd0c.
aliased_opcode : read_opcode (253 ∷ 140 ∷ 250 ∷ 3 ∷ []) ≡ ok 64780 []
unfolding bit_or next_byte read_var_int read_digits digits_value
aliased_opcode = refl

read_var_int-write_var_int_example :
    (out : List ℕ) × (write_var_int var_int32 (negsuc 199) ≡ some (bytes out))
    × ((rest : List ℕ) → read_var_int var_int32 (out ++ rest) ≡ ok (negsuc 199) rest)
read_var_int-write_var_int_example =
    read_var_int-write_var_int var_int32 (negsuc 199)
      (record { some_bits = omega arith; bits_fit = omega arith; word = omega arith })
      (record { of_type = tt; small = omega arith; bounded = refl })

-- Of at least 10 functions, of any number, with 64-bit indices.
abbrev unbounded : TableType
unbounded = record {
  element_type = ReferenceType.funcref;
  is_shared = true;
  index_type = IndexType.i64;
  size = record { min = 10; max = u64_max };
}

Reads-table_type_example : Reads (write_table_type unbounded) read_table_type unbounded
Reads-table_type_example =
    Reads-table_type unbounded ((λ e. cc), record { min_fits = omega arith; max_fits = inr refl })

abbrev binary_op : FunctionType
binary_op = record {
  results = ValueType.i64 ∷ [];
  params = ValueType.i32 ∷ ValueType.funcref ∷ [];
  calling_convention = CallingConvention.intrinsic;
}

binary_op-IsFunction : IsFunction binary_op
unfolding is_numeric_type is_reference_type
binary_op-IsFunction = ((omega arith, (refl, (refl, tt))), (omega arith, (refl, tt)))

Reads-function_type_example : Reads (write_function_type binary_op) read_function_type binary_op
Reads-function_type_example = Reads-function_type binary_op binary_op-IsFunction

Reads-initializer_example :
    Reads
      (write_initializer (InitializerExpression.i32_const 4294967295))
      read_initializer
      (InitializerExpression.i32_const 4294967295)
Reads-initializer_example =
    Reads-initializer (InitializerExpression.i32_const 4294967295) (omega arith)

-- Two functions, for table 0 from offset 1.
abbrev functions : ElemSegment
functions = record {
  mode = ElemMode.active 0 (InitializerExpression.i32_const 1);
  contents = ElemContents.index ExternKind.function (4 ∷ 5 ∷ []);
}

Reads-elem_segment_example : Reads (write_elem_segment functions) read_elem_segment functions
Reads-elem_segment_example =
    Reads-elem_segment functions (omega arith, omega arith)
      ((λ e. cc), omega arith, (omega arith, (omega arith, tt)))

-- Two bytes for memory 3 from offset 1.
abbrev two_bytes : DataSegment
two_bytes = record {
  is_active = true;
  memory_index = 3;
  base_offset = InitializerExpression.i32_const 1;
  bytes = 7 ∷ 8 ∷ [];
}

Reads-data_segment_example : Reads (write_data_segment two_bytes) read_data_segment two_bytes
Reads-data_segment_example = Reads-data_segment two_bytes ((omega arith, omega arith), omega arith)

same_bytes : (w : Written) (out other : List ℕ) → w ≡ bytes out → w ≡ bytes other → out ≡ other
same_bytes w out other e h = let q : bytes out ≡ bytes other = sym e ∙ h in cc

IsSized-by : (w : Written) (out : List ℕ) → w ≡ bytes out → length out < 2 ^ 32 → IsSized w
IsSized-by w out e h other f = subst (λ l. length l < 2 ^ 32) (same_bytes w out other e f) h

Reads-type_section_example :
    Reads (write_type_section (binary_op ∷ [])) (after_id read_type_section) (binary_op ∷ [])
unfolding write_var_int write_digits write_elements
Reads-type_section_example =
    Reads-type_section (binary_op ∷ []) (omega arith) (binary_op-IsFunction, tt)
      (IsSized-by _ (1 ∷ 97 ∷ 1 ∷ 2 ∷ 127 ∷ 112 ∷ 1 ∷ 126 ∷ []) refl (omega arith))

Reads-function_section_example :
    Reads (write_function_section (1 ∷ 0 ∷ [])) (after_id (read_function_section 2)) (1 ∷ 0 ∷ [])
unfolding write_var_int write_digits write_elements
Reads-function_section_example =
    Reads-function_section 2 (1 ∷ 0 ∷ []) (omega arith) (omega arith)
      (omega arith, (omega arith, tt)) (IsSized-by _ (2 ∷ 1 ∷ 0 ∷ []) refl (omega arith))

-- `f`, function 5
abbrev export_f : Export
export_f = record { name = 102 ∷ []; kind = ExternKind.function; index = 5 }

Reads-export_section_example :
    Reads (write_export_section (export_f ∷ [])) (after_id read_export_section) (export_f ∷ [])
unfolding write_var_int write_digits write_elements validate_utf8_string each_code_point
    decode_utf8_code_point encode_utf8_code_point
Reads-export_section_example =
    Reads-export_section (export_f ∷ []) (omega arith)
      (record { valid = refl; size = omega arith; of_kind = λ e. cc; index_fits = omega arith }, tt)
      (IsSized-by _ (1 ∷ 1 ∷ 102 ∷ 0 ∷ 5 ∷ []) refl (omega arith))

Reads-data_section_example :
    Reads
      (write_data_section (two_bytes ∷ []))
      (after_id (read_data_section 100 (some 1)))
      (two_bytes ∷ [])
unfolding write_var_int write_digits write_elements
Reads-data_section_example =
    Reads-data_section 100 (some 1) (two_bytes ∷ []) refl (omega arith)
      (((omega arith, omega arith), omega arith), tt)
      (IsSized-by _ (1 ∷ 2 ∷ 3 ∷ 65 ∷ 1 ∷ 11 ∷ 2 ∷ 7 ∷ 8 ∷ []) refl (omega arith))

-- `m.t`, a table, and `m.f`, a function of type 1.
abbrev two_imports : List AnyImport
two_imports =
    AnyImport.table (record { type = unbounded; module_name = 109 ∷ []; export_name = 116 ∷ [] })
    ∷ AnyImport.function (record { type = 1; module_name = 109 ∷ []; export_name = 102 ∷ [] })
    ∷ []

two_imports-IsImport : Every (IsImport 2) two_imports
unfolding validate_utf8_string each_code_point decode_utf8_code_point encode_utf8_code_point
two_imports-IsImport = (
  (
    record {
      module_valid = refl;
      export_valid = refl;
      module_size = omega arith;
      export_size = omega arith;
    },
    ((λ e. cc), record { min_fits = omega arith; max_fits = inr refl }),
  ),
  (
    (
      record {
        module_valid = refl;
        export_valid = refl;
        module_size = omega arith;
        export_size = omega arith;
      },
      omega arith,
    ),
    tt,
  ),
)

Reads-import_section_example :
    Reads
      (write_import_section (pushed two_imports))
      (after_id (read_import_section 2))
      (pushed two_imports)
unfolding write_var_int write_digits write_imports push_all validate_utf8_string each_code_point
    decode_utf8_code_point encode_utf8_code_point
Reads-import_section_example =
    Reads-import_section 2 two_imports (omega arith) (omega arith) two_imports-IsImport (
      IsSized-by _ (2 ∷ 1 ∷ 109 ∷ 1 ∷ 116 ∷ 1 ∷ 112 ∷ 6 ∷ 10 ∷ 1 ∷ 109 ∷ 1 ∷ 102 ∷ 0 ∷ 1 ∷ []) refl
        (omega arith))

-- A byte after the last type.
read_type_section_overlong_example :
    after_id read_type_section (1 ∷ 9 ∷ 1 ∷ 97 ∷ 1 ∷ 2 ∷ 127 ∷ 112 ∷ 1 ∷ 126 ∷ 0 ∷ [])
    ≡ fatal FatalSerializationException.section_contained_more_data
unfolding write_var_int write_digits write_elements
read_type_section_overlong_example =
    read_type_section_overlong (binary_op ∷ []) (0 ∷ [])
      (1 ∷ 9 ∷ 1 ∷ 97 ∷ 1 ∷ 2 ∷ 127 ∷ 112 ∷ 1 ∷ 126 ∷ 0 ∷ []) (omega arith)
      (binary_op-IsFunction, tt) (λ e. cc)
      (IsSized-by _ (1 ∷ 97 ∷ 1 ∷ 2 ∷ 127 ∷ 112 ∷ 1 ∷ 126 ∷ 0 ∷ []) refl (omega arith)) refl
