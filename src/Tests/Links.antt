-- ===== src/Tests/Links.antt =====
-- A module that imports a memory and a global, and a resolver that knows the memory alone and counts
-- what it is asked.
use wavm.Prelude.{
  ℕ, suc, ◌≡◌, ◌⊎◌, refl, sym, subst, inl, inr, Bool, Bool-cases, true, false, [], ◌∷◌, some, none,
}
use wavm.Ir.Types.{
  ValueType, IndexType, ExternType, ExternKind, is_memory_subtype, is_size_subset, uptr_max,
}
use wavm.Ir.Features.{FeatureSpec}
use wavm.Ir.Module.{Module}
use wavm.Runtime.Linker.{
  Object, is_a, Resolver, Resolved, not_found, found, LinkResult, is_type, request, link_module,
}
use wavm.Runtime.Linker.Resolution.{
  IsResolver, IsAnswer, AreDescribed, Linked, all_resolved, link_module-Linked,
}

abbrev importing : FeatureSpec → Module
importing features = record {
  feature_spec = features;
  types = [];
  functions = record { imports = []; defs = [] };
  tables = record { imports = []; defs = [] };
  memories = record {
    imports =
        record {
          type = record {
            is_shared = false;
            index_type = IndexType.i32;
            size = record { min = 1; max = 4 };
          };
          module_name = 109 ∷ [];
          export_name = 97 ∷ [];
        }
        ∷ [];
    defs = [];
  };
  globals = record {
    imports =
        record {
          type = record { value_type = ValueType.i32; is_mutable = false };
          module_name = 109 ∷ [];
          export_name = 98 ∷ [];
        }
        ∷ [];
    defs = [];
  };
  exception_types = record { imports = []; defs = [] };
  imports =
      record { kind = ExternKind.global; index = 0 }
      ∷ record { kind = ExternKind.memory; index = 0 }
      ∷ [];
  exports = [];
  data_segments = [];
  elem_segments = [];
  start_function_index = uptr_max;
}

abbrev memory : Object
memory = record {
  address = 8;
  type = ExternType.memory (record {
    is_shared = false;
    index_type = IndexType.i32;
    size = record { min = 2; max = 3 };
  });
}

-- An object that is there is given if it is of the type asked for.
abbrev given : Bool → Resolved
given true = found (some memory)
given false = not_found

abbrev only_memory : Resolver ℕ
only_memory asked m e type = record { state = suc asked; resolved = given (is_a memory type) }

abbrev features : FeatureSpec
features = record {
  enabled = λ f. true;
  max_locals = 65536;
  max_labels_per_function = 4294967295;
  max_data_segments = 4294967295;
  max_syntax_recursion = 500;
}

global_missing :
    link_module (importing features) only_memory 0
    ≡ some (record {
      missing_imports =
          record {
            module_name = 109 ∷ [];
            export_name = 98 ∷ [];
            type = ExternType.global (record { value_type = ValueType.i32; is_mutable = false });
          }
          ∷ [];
      resolved_imports = none ∷ some memory ∷ [];
      success = false;
    })
unfolding link_module request is_type is_memory_subtype is_size_subset
global_missing = refl

only_memory-IsResolver : IsResolver only_memory
only_memory-IsResolver s m e type = checked (Bool-cases (is_a memory type))
  where
    checked :
        (is_a memory type ≡ true) ⊎ (is_a memory type ≡ false)
        → IsAnswer type (given (is_a memory type))
    checked (inl h) = subst (λ b. IsAnswer type (given b)) (sym h) h
    checked (inr h) = subst (λ b. IsAnswer type (given b)) (sym h) tt

importing-AreDescribed : AreDescribed (importing features) (importing features).imports
importing-AreDescribed =
    ((_, (_, refl, (refl, refl, refl))), ((_, (_, refl, (refl, refl, refl))), tt))

link_module-Linked_example :
    (r : LinkResult) × (link_module (importing features) only_memory 0 ≡ some r)
    × Linked
        (importing features)
        only_memory
        0
        (importing features).imports
        r.resolved_imports
        r.missing_imports
    × (r.success ≡ all_resolved r.resolved_imports)
link_module-Linked_example =
    link_module-Linked (importing features) only_memory 0 only_memory-IsResolver refl
      importing-AreDescribed
