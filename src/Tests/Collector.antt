-- ===== src/Tests/Collector.antt =====
-- A compartment with a table that is a root and refers to a function of an instance, and a memory
-- that nothing refers to.
use wavm.Prelude.{
  contains, remove, ℕ, ◌≡◌, ◌⊎◌, refl, inl, inr, false, List, [], ◌∷◌, Option, some, none,
  if◌then◌else◌, ◌==◌, arith, sym, subst,
}
use wavm.Runtime.ObjectGc.{
  Reference, Contents, GcObject, Compartment, gc_state, find_instance, references, visit_references,
  scan_all, finished, num_objects, init_gc_objects, instance_candidates, has_root_function,
  candidates, initial_state, collected, collect_garbage,
}
use wavm.Runtime.ObjectGc.Visits.{IsIn, unreferenced, pending}
use wavm.Runtime.ObjectGc.Scan.{Known, IsScannable, Progress, Progress-first, scan_all-Progress}

-- The compartment is at 1, the table at 2, the instance at 3, and the memory at 4.
abbrev objects : ℕ → Option GcObject
objects x =
    if x == 1
    then some
        (record { compartment = none; num_root_references = 0; contents = Contents.compartment })
    else (if x == 2
        then some (record {
          compartment = some 1;
          num_root_references = 1;
          contents = Contents.table (
              Reference.null
              ∷ Reference.function (record { instance_id = 0; num_root_references = 0 })
              ∷ []);
        })
        else (if x == 3
            then some (record {
              compartment = some 1;
              num_root_references = 0;
              contents = Contents.instance_ (record {
                id = 0;
                functions = some (record { instance_id = 0; num_root_references = 0 }) ∷ [];
                tables = 2 ∷ [];
                memories = [];
                globals = [];
                exception_types = [];
              });
            })
            else (if x == 4
                then some (record {
                  compartment = some 1;
                  num_root_references = 0;
                  contents = Contents.memory;
                })
                else none)))

abbrev small : Compartment
small = record {
  address = 1;
  store = objects;
  instances = record { id = 0; instance_ = some 3 } ∷ [];
  memories = 4 ∷ [];
  tables = 2 ∷ [];
  exception_types = [];
  globals = [];
  contexts = [];
  initial_context_mutable_globals = [];
}

memory_collected :
    collect_garbage small
    ≡ collected (record { deleted = 4 ∷ []; was_compartment_unreferenced = false })
unfolding collect_garbage scan_all init_gc_objects candidates instance_candidates has_root_function
    references visit_references find_instance contains remove
memory_collected = refl

small-IsScannable : (x : ℕ) → (x ≡ 1) ⊎ (x ≡ 2) ⊎ (x ≡ 3) ⊎ (x ≡ 4) → IsScannable small x
unfolding references find_instance
small-IsScannable x (inl e) =
    subst (IsScannable small) (sym e)
      (record { visited = Reference.null ∷ []; scanned = refl; are_found = ((λ q. cc), tt) })
small-IsScannable x (inr (inl e)) = subst (IsScannable small) (sym e) (record {
  visited =
      Reference.object 1
      ∷ Reference.null
      ∷ Reference.function (record { instance_id = 0; num_root_references = 0 })
      ∷ [];
  scanned = refl;
  are_found = ((λ q. cc), ((λ q. cc), ((λ q. cc), tt)));
})
small-IsScannable x (inr (inr (inl e))) = subst (IsScannable small) (sym e) (record {
  visited =
      Reference.object 1
      ∷ Reference.function (record { instance_id = 0; num_root_references = 0 })
      ∷ Reference.object 2
      ∷ [];
  scanned = refl;
  are_found = ((λ q. cc), ((λ q. cc), ((λ q. cc), tt)));
})
small-IsScannable x (inr (inr (inr e))) =
    subst (IsScannable small) (sym e)
      (record { visited = Reference.object 1 ∷ []; scanned = refl; are_found = ((λ q. cc), tt) })

small-Known : (x : ℕ) → Known (initial_state small) x → (x ≡ 1) ⊎ (x ≡ 2) ⊎ (x ≡ 3) ⊎ (x ≡ 4)
unfolding init_gc_objects candidates instance_candidates has_root_function contains
small-Known x (inl i) = ground (arith, i)
small-Known x (inr i) = ground (arith, i)

small-apart :
    (y : ℕ)
    → IsIn y (pending (initial_state small))
    → contains y (unreferenced (initial_state small)) ≡ false
unfolding init_gc_objects candidates instance_candidates has_root_function contains
small-apart y i = ground (arith, i)

scan_all-Progress_example :
    (rest : List ℕ) × (scan_all small (num_objects (initial_state small)) (initial_state small)
      ≡ finished (gc_state rest []))
    × Progress small (initial_state small) (gc_state rest [])
scan_all-Progress_example =
    scan_all-Progress small (initial_state small) (num_objects (initial_state small))
      (initial_state small) (λ x k. small-IsScannable x (small-Known x k)) (omega arith)
      (Progress-first small (initial_state small) small-apart)
