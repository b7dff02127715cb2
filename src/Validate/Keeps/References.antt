-- ===== src/Validate/Keeps/References.antt =====
-- The checks of references, on a well-indexed module.
use wavm.Prelude.{
  ℕ, ◌<◌, ◌≡◌, Bool, true, [], ◌∷◌, length, arith, leb, get_elem?-some, Bool-cases, inl, inr, some,
  Option,
}
use wavm.Ir.Features.{Feature}
use wavm.Ir.Module.{Module, space_size, get_type-some, function_type_index}
use wavm.Ir.Operators.{BlockType}
use wavm.Ir.Types.{ValueType, ReferenceType, TypeTuple}
use wavm.Validate.Keeps.{Checks}
use wavm.Validate.References.{
  validate_global_index, validate_function_index, validate_block_type, validate_function_type,
}
use wavm.Validate.Result.{Result, ok, invalid, fault, ◌>>=◌, in_range}
use wavm.Validate.Types.{validate_value_type, validate_reference_type, validate_type_tuple}

-- The MVP feature is on, and each function's type index is in range: what `validateImports` and
-- `validateFunctionDeclarations` check before any code is validated.
pub record IsIndexed (m : Module) : Type 0 where
  pub mvp : m.feature_spec.enabled Feature.mvp ≡ true
  pub function_types : (i t : ℕ) → function_type_index m i ≡ some t → t < length m.types

pub Checks-bind :
    {A B : Type 0} (P : A → Type 0) (Q : B → Type 0) (r : Result A) (f : A → Result B)
    → Checks P r
    → ((a : A) → P a → Checks Q (f a))
    → Checks Q (r >>= f)
Checks-bind P Q (ok a) f h k = k a h
Checks-bind P Q (invalid e) f h k = tt
Checks-bind P Q fault f h k = h

pub validate_value_type-Checks :
    (m : Module) (type : ValueType)
    → m.feature_spec.enabled Feature.mvp ≡ true
    → Checks (λ _. Unit {0}) (validate_value_type m type)
unfolding validate_value_type
validate_value_type-Checks m type e = ground arith

pub validate_reference_type-Checks :
    (m : Module) (type : ReferenceType) → Checks (λ _. Unit {0}) (validate_reference_type m type)
unfolding validate_reference_type
validate_reference_type-Checks m type = ground arith

pub in_range-Checks :
    {A : Type 0} {o : Option A} (a : A) → o ≡ some a → Checks (λ _. Unit {0}) (in_range o)
in_range-Checks a e = rw e tt

pub validate_global_index-Checks :
    (m : Module) (i : ℕ) (a b c : Bool) → Checks (λ _. Unit {0}) (validate_global_index m i a b c)
unfolding validate_global_index
validate_global_index-Checks m i a b c = elim (Bool-cases (leb (space_size m.globals) i)) [
  | inl out ↦ ground arith
  | inr low ↦
      let (t, e) = get_type-some (λ d. d.type) m.globals i (ground arith) in ground (arith, e)
]

pub validate_function_index-Checks :
    (m : Module) (i : ℕ) → IsIndexed m → Checks (λ _. Unit {0}) (validate_function_index m i)
unfolding validate_function_index
validate_function_index-Checks m i v = elim (Bool-cases (leb (space_size m.functions) i)) [
  | inl out ↦ ground arith
  | inr low ↦
      let (t, e) = get_type-some (λ d. d.type) m.functions i (ground arith) in
      let (type, k) = get_elem?-some m.types t (v.function_types i t e) in ground (arith, e, k)
]

pub validate_block_type-Checks :
    (m : Module) (type : BlockType)
    → IsIndexed m
    → Checks (λ _. Unit {0}) (validate_block_type m type)
unfolding validate_block_type
validate_block_type-Checks m BlockType.no_parameters_or_result v = tt
validate_block_type-Checks m (BlockType.one_result type) v =
    let e = validate_value_type-Checks m type v.mvp in ground (arith, e)
validate_block_type-Checks m (BlockType.function_type i) v =
    elim (Bool-cases (leb (length m.types) i)) [
      | inl out ↦ ground arith
      | inr low ↦ let (type, k) = get_elem?-some m.types i (ground arith) in ground (arith, k)
    ]

pub validate_function_type-Checks :
    (m : Module) (i : ℕ) → Checks (λ _. Unit {0}) (validate_function_type m i)
unfolding validate_function_type
validate_function_type-Checks m i = elim (Bool-cases (leb (length m.types) i)) [
  | inl out ↦ ground arith
  | inr low ↦ let (type, k) = get_elem?-some m.types i (ground arith) in ground (arith, k)
]

pub validate_type_tuple-Checks :
    (m : Module) (types : TypeTuple)
    → m.feature_spec.enabled Feature.mvp ≡ true
    → Checks (λ _. Unit {0}) (validate_type_tuple m types)
unfolding validate_type_tuple
validate_type_tuple-Checks m [] v = tt
validate_type_tuple-Checks m (type ∷ types) v =
    let a = validate_value_type-Checks m type v in
    let b = validate_type_tuple-Checks m types v in ground (arith, a, b)
