-- ===== src/Tests/Signatures.antt =====
-- Types of functions, sizes and globals, and feature levels.
use wavm.Prelude.{ℕ, ◌≡◌, ◌↔◌, refl, true, false, [], ◌∷◌, arith}
use wavm.Ir.Features.{
  Feature, FeatureLevel, FeatureSpec, set_feature_level, set_feature_level_mono, group_of,
}
use wavm.Ir.Types.{
  ValueType, FunctionType, CallingConvention, SizeConstraints, GlobalType, is_subtype,
  is_tuple_subtype, is_function_subtype, is_size_subset, is_global_subtype,
}
use wavm.Ir.Types.Subtyping.{
  Below, FunctionBelow, Admits, is_tuple_subtype_iff, is_function_subtype_iff,
  is_function_subtype_trans, is_size_subset_iff, is_global_subtype_iff,
}

abbrev no_features : FeatureSpec
no_features = record {
  enabled = λ f. false;
  max_locals = 65536;
  max_labels_per_function = 4294967295;
  max_data_segments = 4294967295;
  max_syntax_recursion = 500;
}

abbrev takes : ValueType → FunctionType
takes type = record {
  results = ValueType.i32 ∷ [];
  params = type ∷ [];
  calling_convention = CallingConvention.wasm;
}

abbrev two_to_four : SizeConstraints
two_to_four = record { min = 2; max = 4 }

abbrev two_or_more : SizeConstraints
two_or_more = record { min = 2; max = 18446744073709551615 }

abbrev immutable : ValueType → GlobalType
immutable type = record { value_type = type; is_mutable = false }

any_is_taken : is_function_subtype (takes ValueType.any) (takes ValueType.funcref) ≡ true
unfolding is_function_subtype is_subtype
any_is_taken = refl

none_is_given : is_function_subtype (takes ValueType.funcref) (takes ValueType.none) ≡ true
unfolding is_function_subtype is_subtype
none_is_given = refl

is_tuple_subtype_iff_example :
    (is_tuple_subtype (ValueType.none ∷ []) (ValueType.funcref ∷ []) ≡ true)
    ↔ Below (ValueType.none ∷ []) (ValueType.funcref ∷ [])
is_tuple_subtype_iff_example = is_tuple_subtype_iff (ValueType.none ∷ []) (ValueType.funcref ∷ [])

is_function_subtype_iff_example :
    (is_function_subtype (takes ValueType.any) (takes ValueType.funcref) ≡ true)
    ↔ FunctionBelow (takes ValueType.any) (takes ValueType.funcref)
is_function_subtype_iff_example =
    is_function_subtype_iff (takes ValueType.any) (takes ValueType.funcref)

is_function_subtype_trans_example :
    is_function_subtype (takes ValueType.any) (takes ValueType.none) ≡ true
is_function_subtype_trans_example =
    is_function_subtype_trans (takes ValueType.any) (takes ValueType.funcref) (takes ValueType.none)
      any_is_taken none_is_given

is_size_subset_iff_example :
    (is_size_subset two_to_four two_or_more ≡ true)
    ↔ ((n : ℕ) → Admits two_to_four n → Admits two_or_more n)
is_size_subset_iff_example = is_size_subset_iff two_to_four two_or_more (omega arith)

is_global_subtype_iff_example :
    (is_global_subtype (immutable ValueType.none) (immutable ValueType.funcref) ≡ true) ↔ (
      (false ≡ false)
      × (is_subtype ValueType.none ValueType.funcref ≡ true)
      × (false ≡ true → ValueType.none ≡ ValueType.funcref))
is_global_subtype_iff_example =
    is_global_subtype_iff (immutable ValueType.none) (immutable ValueType.funcref)

simd_at_mature : (set_feature_level FeatureLevel.mature no_features).enabled Feature.simd ≡ true
unfolding set_feature_level group_of
simd_at_mature = refl

set_feature_level_mono_example :
    (set_feature_level FeatureLevel.proposed no_features).enabled Feature.simd ≡ true
set_feature_level_mono_example =
    set_feature_level_mono FeatureLevel.mature FeatureLevel.proposed no_features no_features
      Feature.simd (omega arith) simd_at_mature
