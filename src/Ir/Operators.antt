-- ===== src/Ir/Operators.antt =====
-- Operators, their immediates and their signatures: Include/WAVM/IR/Operators.h and
-- OperatorSignatures.h. The bytes that `OperatorEncoderStream` stores are not modelled: an
-- operator is a value of `Op`, as `OperatorDecoderStream` hands it to its visitor.
use wavm.Prelude.{ℕ, List}
use wavm.Ir.Features.{Feature}
use wavm.Ir.Types.{ValueType, ReferenceType, TypeTuple}

pub data BlockType : Type 0 where
  no_parameters_or_result : BlockType
  one_result : ValueType → BlockType
  function_type : ℕ → BlockType

-- An immediate. The template arguments of the source stand first: the natural alignment's
-- logarithm, then the number of lanes. `alignment_log2`, `offset` and the memory's index follow.
pub data MemoryOrder : Type 0 where
  sequentially_consistent : MemoryOrder

pub data Imm : Type 0 where
  no_imm : Imm
  literal : ℕ → Imm
  load_or_store : ℕ → ℕ → ℕ → ℕ → Imm
  load_or_store_lane : ℕ → ℕ → ℕ → ℕ → ℕ → ℕ → Imm
  memory : ℕ → Imm
  -- destination, source
  memory_copy : ℕ → ℕ → Imm
  table : ℕ → Imm
  table_copy : ℕ → ℕ → Imm
  function_ref : ℕ → Imm
  lane_index : ℕ → ℕ → Imm
  shuffle : ℕ → List ℕ → Imm
  atomic_load_or_store : ℕ → ℕ → ℕ → ℕ → Imm
  atomic_fence : MemoryOrder → Imm
  data_segment_and_mem : ℕ → ℕ → Imm
  data_segment : ℕ → Imm
  elem_segment_and_table : ℕ → ℕ → Imm
  elem_segment : ℕ → Imm

pub record OpSignature : Type 0 where
  pub results : TypeTuple
  pub params : TypeTuple

-- The name of a signature in the operator table: a constant, or one of the functions of the
-- module and the immediate.
pub data Signature : Type 0 where
  monomorphic : OpSignature → Signature
  load store : ValueType → Signature
  load_lane store_lane : Signature
  load_vectors store_vectors : ℕ → Signature
  size grow init copy fill notify wait32 wait64 : Signature
  atomic_rmw atomic_cmpxchg : ValueType → Signature

pub data Op : Type 0 where
  block loop if_ try_ : BlockType → Op
  else_ end catch_all : Op
  catch_ : ℕ → Op
  unreachable return_ drop ref_is_null : Op
  br br_if : ℕ → Op
  -- the default target's depth, and the index of a list of depths of the function definition
  br_table : ℕ → ℕ → Op
  call : ℕ → Op
  -- the function type's index, the table's index
  call_indirect : ℕ → ℕ → Op
  local_get local_set local_tee global_get global_set : ℕ → Op
  table_get table_set table_grow table_fill : ℕ → Op
  throw_ rethrow : ℕ → Op
  ref_null : ReferenceType → Op
  select : ValueType → Op
  -- every other operator, by its row of the table: feature, signature and immediate
  plain : Feature → Signature → Imm → Op
