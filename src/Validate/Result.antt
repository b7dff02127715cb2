-- ===== src/Validate/Result.antt =====
-- The outcome of a validation step: Include/WAVM/IR/Validate.h, and the macros at the top of
-- Lib/IR/Validate.cpp. The text of a message is kept as the reason that it reports.
use wavm.Prelude.{ℕ, Bool, true, false, Option, none, some, leb}
use wavm.Ir.Features.{Feature, FeatureSpec}

pub data ValidationException : Type 0 where
  invalid_index : ValidationException
  missing_feature : Feature → ValidationException
  invalid_value_type invalid_reference_type invalid_extern_kind : ValidationException
  disjoint_size_bounds size_exceeds_limit shared_without_maximum : ValidationException
  type_mismatch empty_stack stack_not_empty : ValidationException
  immutable_global global_not_imported mutable_global_in_initializer : ValidationException
  function_not_declared : ValidationException
  invalid_block_calling_convention too_many_return_values : ValidationException
  invalid_initializer : ValidationException
  expected_non_empty_control_stack : ValidationException
  else_outside_if end_in_try else_less_if catch_outside_try : ValidationException
  br_table_arity rethrow_outside_catch : ValidationException
  select_operands_not_numeric select_operands_differ : ValidationException
  expected_reference_type call_indirect_table_type : ValidationException
  alignment_too_large alignment_not_natural offset_too_large invalid_lane_index :
      ValidationException
  incompatible_table_elem_types : ValidationException
  non_wasm_function_definition duplicate_export start_function_signature : ValidationException
  segment_type_mismatch elem_expr_type_mismatch : ValidationException
  end_of_code_before_end_of_function : ValidationException

-- `fault` is no exception of the source: an assertion fails, `WAVM_UNREACHABLE` is reached, or
-- a vector is read out of range.
pub data Result {ℓ} (A : Type ℓ) : Type ℓ where
  ok : A → Result A
  invalid : ValidationException → Result A
  fault : Result A

infixl 5 ◌>>=◌ ◌>>◌
abbrev pub ◌>>=◌ {ℓ κ} : {A : Type ℓ} {B : Type κ} → Result A → (A → Result B) → Result B
ok a >>= f = f a
invalid e >>= f = invalid e
fault >>= f = fault

abbrev pub ◌>>◌ {ℓ} : {B : Type ℓ} → Result (Unit {0}) → Result B → Result B
r >> k = r >>= λ _. k

-- `VALIDATE_UNLESS`: the exception is thrown if the comparison holds.
abbrev pub validate_unless : ValidationException → Bool → Result (Unit {0})
validate_unless e true = invalid e
validate_unless e false = ok tt

abbrev pub validate_index : ℕ → ℕ → Result (Unit {0})
validate_index i size = validate_unless ValidationException.invalid_index (leb size i)

abbrev pub require : Feature → Bool → Result (Unit {0})
require f true = ok tt
require f false = invalid (ValidationException.missing_feature f)

abbrev pub validate_feature : FeatureSpec → Feature → Result (Unit {0})
validate_feature spec f = require f (spec.enabled f)

-- A read that must be in range.
abbrev pub in_range {ℓ} : {A : Type ℓ} → Option A → Result A
in_range none = fault
in_range (some a) = ok a

-- `WAVM_ASSERT`
abbrev pub assert : Bool → Result (Unit {0})
assert true = ok tt
assert false = fault
