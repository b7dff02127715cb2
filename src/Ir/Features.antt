-- ===== src/Ir/Features.antt =====
-- Feature flags: Include/WAVM/IR/FeatureSpec.h and Lib/IR/FeatureSpec.cpp.
use wavm.Prelude.{ℕ, ◌≡◌, ◌≤◌, Bool, true, false, arith}

pub data Feature : Type 0 where
  mvp import_export_mutable_globals non_trapping_float_to_int sign_extension : Feature
  multiple_results_and_block_params bulk_memory_operations reference_types : Feature
  simd : Feature
  atomics exception_handling extended_name_section multiple_memories memory64 : Feature
  shared_tables allow_legacy_instruction_names allow_any_extern_kind_elem_segments : Feature
  quoted_names_in_text_format custom_sections_in_text_format interleaved_load_store table64 :
      Feature
  non_wasm_function_types : Feature

pub data FeatureLevel : Type 0 where
  mvp standard mature proposed wavm_level : FeatureLevel

-- The five groups of the X-macros that enumerate the features.
pub data FeatureGroup : Type 0 where
  standard mature proposed nonstandard internal : FeatureGroup

unfoldable pub group_of : Feature → FeatureGroup
group_of Feature.mvp = FeatureGroup.standard
group_of Feature.import_export_mutable_globals = FeatureGroup.standard
group_of Feature.non_trapping_float_to_int = FeatureGroup.standard
group_of Feature.sign_extension = FeatureGroup.standard
group_of Feature.multiple_results_and_block_params = FeatureGroup.standard
group_of Feature.bulk_memory_operations = FeatureGroup.standard
group_of Feature.reference_types = FeatureGroup.standard
group_of Feature.simd = FeatureGroup.mature
group_of Feature.atomics = FeatureGroup.proposed
group_of Feature.exception_handling = FeatureGroup.proposed
group_of Feature.extended_name_section = FeatureGroup.proposed
group_of Feature.multiple_memories = FeatureGroup.proposed
group_of Feature.memory64 = FeatureGroup.proposed
group_of Feature.shared_tables = FeatureGroup.nonstandard
group_of Feature.allow_legacy_instruction_names = FeatureGroup.nonstandard
group_of Feature.allow_any_extern_kind_elem_segments = FeatureGroup.nonstandard
group_of Feature.quoted_names_in_text_format = FeatureGroup.nonstandard
group_of Feature.custom_sections_in_text_format = FeatureGroup.nonstandard
group_of Feature.interleaved_load_store = FeatureGroup.nonstandard
group_of Feature.table64 = FeatureGroup.nonstandard
group_of Feature.non_wasm_function_types = FeatureGroup.internal

-- One Boolean member for each feature.
pub record FeatureSpec : Type 0 where
  pub enabled : Feature → Bool
  pub max_locals : ℕ
  pub max_labels_per_function : ℕ
  pub max_data_segments : ℕ
  pub max_syntax_recursion : ℕ

-- `SET_FEATURE` on every feature of a group.
abbrev set_group : FeatureGroup → (Feature → Bool) → Feature → Bool
set_group FeatureGroup.standard spec f = elim (group_of f) [
  | FeatureGroup.standard ↦ true
  | _ ↦ spec f
]
set_group FeatureGroup.mature spec f = elim (group_of f) [ FeatureGroup.mature ↦ true | _ ↦ spec f ]
set_group FeatureGroup.proposed spec f = elim (group_of f) [
  | FeatureGroup.proposed ↦ true
  | _ ↦ spec f
]
set_group FeatureGroup.nonstandard spec f = elim (group_of f) [
  | FeatureGroup.nonstandard ↦ true
  | _ ↦ spec f
]
set_group FeatureGroup.internal spec f = elim (group_of f) [
  | FeatureGroup.internal ↦ true
  | _ ↦ spec f
]

abbrev set_mvp : (Feature → Bool) → Feature → Bool
set_mvp spec Feature.mvp = true
set_mvp spec f = spec f

-- The switch falls through from each level to the one below it.
abbrev level_from : FeatureLevel → (Feature → Bool) → Feature → Bool
level_from FeatureLevel.mvp spec = set_mvp spec
level_from FeatureLevel.standard spec = set_mvp (set_group FeatureGroup.standard spec)
level_from FeatureLevel.mature spec =
    set_mvp (set_group FeatureGroup.standard (set_group FeatureGroup.mature spec))
level_from FeatureLevel.proposed spec = set_mvp (
    set_group FeatureGroup.standard
      (set_group FeatureGroup.mature (set_group FeatureGroup.proposed spec)))
level_from FeatureLevel.wavm_level spec = set_mvp (
    set_group FeatureGroup.standard (
      set_group FeatureGroup.mature
        (set_group FeatureGroup.proposed (set_group FeatureGroup.nonstandard spec))))

unfoldable pub set_feature_level : FeatureLevel → FeatureSpec → FeatureSpec
set_feature_level level spec = record spec { enabled = level_from level (λ f. false) }

-- The place of a level in the hierarchy.
abbrev pub rank : FeatureLevel → ℕ
rank FeatureLevel.mvp = 0
rank FeatureLevel.standard = 1
rank FeatureLevel.mature = 2
rank FeatureLevel.proposed = 3
rank FeatureLevel.wavm_level = 4

-- Each level enables every feature that a lower level enables, whatever was set before.
pub set_feature_level_mono :
    (low high : FeatureLevel) (spec spec' : FeatureSpec) (f : Feature)
    → rank low ≤ rank high
    → (set_feature_level low spec).enabled f ≡ true
    → (set_feature_level high spec').enabled f ≡ true
unfolding set_feature_level group_of
set_feature_level_mono low high spec spec' f le on = ground arith

-- Internal features are enabled at no level.
pub set_feature_level_internal :
    (level : FeatureLevel) (spec : FeatureSpec)
    → (set_feature_level level spec).enabled Feature.non_wasm_function_types ≡ false
unfolding set_feature_level group_of
set_feature_level_internal level spec = ground arith
