-- ===== src/Ir/Module.antt =====
-- A module's definitions: Include/WAVM/IR/Module.h. Names are lists of bytes, floating-point and
-- vector constants are their bits.
use wavm.Prelude.{
  ℕ, ◌+◌, ◌-◌, Bool, List, Option, some, ltb, length, get_elem?, if◌then◌else◌, map_option,
  get_elem?-some, ◌<◌, ◌≡◌, arith, Bool-cases, inl, inr,
}
use wavm.Ir.Features.{FeatureSpec}
use wavm.Ir.Operators.{Op}
use wavm.Ir.Types.{
  ValueType, ReferenceType, FunctionType, TableType, MemoryType, GlobalType, ExceptionType,
  ExternKind,
}

abbrev pub Name : Type 0
Name = List ℕ

pub data InitializerExpression : Type 0 where
  i32_const i64_const f32_const f64_const v128_const : ℕ → InitializerExpression
  global_get ref_func : ℕ → InitializerExpression
  ref_null : ReferenceType → InitializerExpression
  invalid : InitializerExpression

-- `type` is the index of a function type.
pub record FunctionDef : Type 0 where
  pub type : ℕ
  pub non_parameter_local_types : List ValueType
  pub code : List Op
  pub branch_tables : List (List ℕ)

pub record GlobalDef : Type 0 where
  pub type : GlobalType
  pub initializer : InitializerExpression

pub record Import (T : Type 0) : Type 0 where
  pub type : T
  pub module_name : Name
  pub export_name : Name

pub record Export : Type 0 where
  pub name : Name
  pub kind : ExternKind
  pub index : ℕ

pub record KindAndIndex : Type 0 where
  pub kind : ExternKind
  pub index : ℕ

pub record DataSegment : Type 0 where
  pub is_active : Bool
  pub memory_index : ℕ
  pub base_offset : InitializerExpression
  pub bytes : List ℕ

-- `invalid` is the default value.
pub data ElemExpr : Type 0 where
  invalid : ElemExpr
  ref_null : ReferenceType → ElemExpr
  ref_func : ℕ → ElemExpr

-- The union of the two encodings: expressions of one type, or indices of one kind.
pub data ElemContents : Type 0 where
  expr : ReferenceType → List ElemExpr → ElemContents
  index : ExternKind → List ℕ → ElemContents

pub data ElemMode : Type 0 where
  -- the table's index and the base offset
  active : ℕ → InitializerExpression → ElemMode
  passive declared : ElemMode

pub record ElemSegment : Type 0 where
  pub mode : ElemMode
  pub contents : ElemContents

-- Imports come before definitions.
pub record IndexSpace (D T : Type 0) : Type 0 where
  pub imports : List (Import T)
  pub defs : List D

module _ {D T : Type 0} where
  abbrev pub space_size : IndexSpace D T → ℕ
  space_size space = length space.imports + length space.defs

  -- `getType`, by way of the definition's `type` member. `none` is a read out of range.
  unfoldable pub get_type : (D → T) → IndexSpace D T → ℕ → Option T
  get_type type_of space i =
      if ltb i (length space.imports)
      then map_option (λ x. x.type) (get_elem? space.imports i)
      else map_option type_of (get_elem? space.defs (i - length space.imports))

  -- An index below the size of the space has a type.
  pub get_type-some :
      (type_of : D → T) (space : IndexSpace D T) (i : ℕ)
      → i < space_size space
      → (t : T) × (get_type type_of space i ≡ some t)
  unfolding get_type
  get_type-some type_of space i h = elim (Bool-cases (ltb i (length space.imports))) [
    | inl is_import ↦
        let (x, e) = get_elem?-some space.imports i (ground arith) in (x.type, ground arith)
    | inr is_def ↦
        let (x, e) = get_elem?-some space.defs (i - length space.imports) (ground arith) in
        (type_of x, ground arith)
  ]

-- The definitions of tables, memories and exception types hold a type alone.
pub record Module : Type 0 where
  pub feature_spec : FeatureSpec
  pub types : List FunctionType
  pub functions : IndexSpace FunctionDef ℕ
  pub tables : IndexSpace TableType TableType
  pub memories : IndexSpace MemoryType MemoryType
  pub globals : IndexSpace GlobalDef GlobalType
  pub exception_types : IndexSpace ExceptionType ExceptionType
  -- all imports, in the order in which the module names them
  pub imports : List KindAndIndex
  pub exports : List Export
  pub data_segments : List DataSegment
  pub elem_segments : List ElemSegment
  -- `uptr_max` where there is none
  pub start_function_index : ℕ

abbrev pub function_type_index : Module → ℕ → Option ℕ
function_type_index m = get_type (λ d. d.type) m.functions

abbrev pub table_type : Module → ℕ → Option TableType
table_type m = get_type (λ d. d) m.tables

abbrev pub memory_type : Module → ℕ → Option MemoryType
memory_type m = get_type (λ d. d) m.memories

abbrev pub global_type : Module → ℕ → Option GlobalType
global_type m = get_type (λ d. d.type) m.globals

abbrev pub exception_type : Module → ℕ → Option ExceptionType
exception_type m = get_type (λ d. d) m.exception_types
