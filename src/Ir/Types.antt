-- ===== src/Ir/Types.antt =====
-- The types of WebAssembly operands and objects: Include/WAVM/IR/Types.h and IR.h.
-- A `TypeTuple` is interned in the source, so that `==` on it compares pointers of unique
-- tuples; here it is the list of its elements, compared element by element.
pub mod Subtyping
use wavm.Prelude.{
  ℕ, ◌^◌, ◌-◌, Bool, true, false, ◌&&◌, ◌||◌, not, List, [], ◌∷◌, ◌==◌, leb, length, if◌then◌else◌,
}

pub data ValueType : Type 0 where
  none any i32 i64 f32 f64 v128 externref funcref : ValueType

-- `U8(type)`, which `==` on the enumeration compares.
abbrev pub type_code : ValueType → ℕ
type_code ValueType.none = 0
type_code ValueType.any = 1
type_code ValueType.i32 = 2
type_code ValueType.i64 = 3
type_code ValueType.f32 = 4
type_code ValueType.f64 = 5
type_code ValueType.v128 = 6
type_code ValueType.externref = 7
type_code ValueType.funcref = 8

abbrev pub value_type_eq : ValueType → ValueType → Bool
value_type_eq a b = type_code a == type_code b

pub data ReferenceType : Type 0 where
  none externref funcref : ReferenceType

abbrev pub as_value_type : ReferenceType → ValueType
as_value_type ReferenceType.none = ValueType.none
as_value_type ReferenceType.externref = ValueType.externref
as_value_type ReferenceType.funcref = ValueType.funcref

unfoldable pub is_numeric_type : ValueType → Bool
is_numeric_type type =
    value_type_eq type ValueType.i32
    || value_type_eq type ValueType.i64
    || value_type_eq type ValueType.f32
    || value_type_eq type ValueType.f64
    || value_type_eq type ValueType.v128

unfoldable pub is_reference_type : ValueType → Bool
is_reference_type type =
    value_type_eq type ValueType.externref || value_type_eq type ValueType.funcref

unfoldable pub is_subtype : ValueType → ValueType → Bool
is_subtype subtype supertype =
    value_type_eq subtype supertype
    || value_type_eq subtype ValueType.none
    || value_type_eq supertype ValueType.any

abbrev pub is_reference_subtype : ReferenceType → ReferenceType → Bool
is_reference_subtype subtype supertype =
    is_subtype (as_value_type subtype) (as_value_type supertype)

abbrev pub TypeTuple : Type 0
TypeTuple = List ValueType

unfoldable pub tuple_eq : TypeTuple → TypeTuple → Bool
tuple_eq [] [] = true
tuple_eq [] (b ∷ right) = false
tuple_eq (a ∷ left) [] = false
tuple_eq (a ∷ left) (b ∷ right) = value_type_eq a b && tuple_eq left right

-- The loop of `isSubtype` on tuples of one size.
unfoldable pub elements_subtype : TypeTuple → TypeTuple → Bool
elements_subtype [] super = true
elements_subtype (a ∷ sub) [] = true
elements_subtype (a ∷ sub) (b ∷ super) = is_subtype a b && elements_subtype sub super

unfoldable pub is_tuple_subtype : TypeTuple → TypeTuple → Bool
unfolding tuple_eq elements_subtype
is_tuple_subtype subtype supertype =
    if tuple_eq subtype supertype
    then true
    else (if not (length subtype == length supertype)
        then false
        else elements_subtype subtype supertype)

pub data CallingConvention : Type 0 where
  wasm intrinsic intrinsic_with_context_switch c c_api_callback : CallingConvention

abbrev pub convention_code : CallingConvention → ℕ
convention_code CallingConvention.wasm = 0
convention_code CallingConvention.intrinsic = 1
convention_code CallingConvention.intrinsic_with_context_switch = 2
convention_code CallingConvention.c = 3
convention_code CallingConvention.c_api_callback = 4

pub record FunctionType : Type 0 where
  pub results : TypeTuple
  pub params : TypeTuple
  pub calling_convention : CallingConvention

-- `FunctionType()`
abbrev pub empty_function_type : FunctionType
empty_function_type = record {
  results = [];
  params = [];
  calling_convention = CallingConvention.wasm;
}

unfoldable pub function_type_eq : FunctionType → FunctionType → Bool
unfolding tuple_eq
function_type_eq left right =
    tuple_eq left.results right.results
    && tuple_eq left.params right.params
    && convention_code left.calling_convention == convention_code right.calling_convention

unfoldable pub is_function_subtype : FunctionType → FunctionType → Bool
unfolding is_tuple_subtype function_type_eq
is_function_subtype subtype supertype =
    if function_type_eq subtype supertype
    then true
    else is_tuple_subtype supertype.params subtype.params
      && is_tuple_subtype subtype.results supertype.results
      && convention_code supertype.calling_convention == convention_code subtype.calling_convention

pub data IndexType : Type 0 where
  i32 i64 : IndexType

abbrev pub index_value_type : IndexType → ValueType
index_value_type IndexType.i32 = ValueType.i32
index_value_type IndexType.i64 = ValueType.i64

abbrev pub index_type_eq : IndexType → IndexType → Bool
index_type_eq a b = type_code (index_value_type a) == type_code (index_value_type b)

abbrev pub bool_eq : Bool → Bool → Bool
bool_eq true b = b
bool_eq false b = not b

-- A range of sizes. `max` equal to `u64_max` means that there is no bound.
pub record SizeConstraints : Type 0 where
  pub min : ℕ
  pub max : ℕ

abbrev pub u64_max : ℕ
u64_max = 2 ^ 64 - 1

abbrev pub u32_max : ℕ
u32_max = 2 ^ 32 - 1

-- `UINTPTR_MAX` of a 64-bit host.
abbrev pub uptr_max : ℕ
uptr_max = 2 ^ 64 - 1

abbrev pub max_memory32_pages : ℕ
max_memory32_pages = 65536

abbrev pub max_memory64_pages : ℕ
max_memory64_pages = 281474976710656

abbrev pub max_table32_elems : ℕ
max_table32_elems = 2 ^ 32 - 1

abbrev pub max_table64_elems : ℕ
max_table64_elems = 2 ^ 64 - 1

abbrev pub num_bytes_per_page : ℕ
num_bytes_per_page = 65536

abbrev pub num_bytes_per_page_log2 : ℕ
num_bytes_per_page_log2 = 16

abbrev pub max_return_values : ℕ
max_return_values = 16

unfoldable pub is_size_subset : SizeConstraints → SizeConstraints → Bool
is_size_subset sub super = leb super.min sub.min && leb sub.max super.max

pub record TableType : Type 0 where
  pub element_type : ReferenceType
  pub is_shared : Bool
  pub index_type : IndexType
  pub size : SizeConstraints

unfoldable pub is_table_subtype : TableType → TableType → Bool
unfolding is_size_subset
is_table_subtype sub super =
    value_type_eq (as_value_type super.element_type) (as_value_type sub.element_type)
    && bool_eq super.is_shared sub.is_shared
    && index_type_eq super.index_type sub.index_type
    && is_size_subset sub.size super.size

pub record MemoryType : Type 0 where
  pub is_shared : Bool
  pub index_type : IndexType
  pub size : SizeConstraints

unfoldable pub is_memory_subtype : MemoryType → MemoryType → Bool
unfolding is_size_subset
is_memory_subtype sub super =
    bool_eq super.is_shared sub.is_shared
    && index_type_eq super.index_type sub.index_type
    && is_size_subset sub.size super.size

pub record GlobalType : Type 0 where
  pub value_type : ValueType
  pub is_mutable : Bool

unfoldable pub is_global_subtype : GlobalType → GlobalType → Bool
unfolding is_subtype
is_global_subtype sub super =
    if not (bool_eq super.is_mutable sub.is_mutable)
    then false
    else (if super.is_mutable
        then value_type_eq super.value_type sub.value_type
        else is_subtype sub.value_type super.value_type)

pub record ExceptionType : Type 0 where
  pub params : TypeTuple

pub data ExternKind : Type 0 where
  invalid function table memory global exception_type : ExternKind

-- `asReferenceType` of an extern kind.
unfoldable pub as_reference_type : ExternKind → ReferenceType
as_reference_type ExternKind.function = ReferenceType.funcref
as_reference_type kind = ReferenceType.externref

-- A tagged union of the types of importable objects.
pub data ExternType : Type 0 where
  function : FunctionType → ExternType
  table : TableType → ExternType
  memory : MemoryType → ExternType
  global : GlobalType → ExternType
  exception_type : ExceptionType → ExternType
