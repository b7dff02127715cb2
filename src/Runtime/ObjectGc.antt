-- ===== src/Runtime/ObjectGc.antt =====
-- Garbage collection in a compartment: Lib/Runtime/ObjectGC.cpp, on the objects of
-- Lib/Runtime/RuntimePrivate.h. A pointer to an object is its address, a number; functions are
-- not objects of the collector but belong to an instance. The collector reads the store and
-- changes its own state alone, so the store is a parameter of the state.
pub mod Visits
pub mod Scan
pub mod Pointers
pub mod Held
pub mod Separate
pub mod Candidates
pub mod Roots
pub mod Reachability
use wavm.Prelude.{
  contains, remove, ℕ, zero, suc, ◌+◌, Bool, true, false, not, ◌&&◌, ◌||◌, List, [], ◌∷◌, ◌++◌, map,
  length, get_or, ltb, ◌==◌, Option, some, none, if◌then◌else◌,
}

-- `numRootReferences` is that of `mutableData`.
pub record Function : Type 0 where
  pub instance_id : ℕ
  pub num_root_references : ℕ

pub data Reference : Type 0 where
  null : Reference
  function : Function → Reference
  object : ℕ → Reference

pub record Instance : Type 0 where
  pub id : ℕ
  pub functions : List (Option Function)
  pub tables : List ℕ
  pub memories : List ℕ
  pub globals : List ℕ
  pub exception_types : List ℕ

pub record Global : Type 0 where
  pub is_reference : Bool
  pub is_mutable : Bool
  pub mutable_global_index : ℕ
  pub initial_value : Reference

-- `kind`, with what the collector reads of the object.
pub data Contents : Type 0 where
  table : List Reference → Contents
  global : Global → Contents
  instance_ : Instance → Contents
  compartment memory exception_type context function foreign invalid : Contents

pub record GcObject : Type 0 where
  pub compartment : Option ℕ
  pub num_root_references : ℕ
  pub contents : Contents

-- A context's address and the values of the mutable globals that are references.
pub record Context : Type 0 where
  pub address : ℕ
  pub mutable_globals : List Reference

pub record InstanceEntry : Type 0 where
  pub id : ℕ
  pub instance_ : Option ℕ

-- The compartment at `address`, and the objects by their addresses.
pub record Compartment : Type 0 where
  pub address : ℕ
  pub store : ℕ → Option GcObject
  pub instances : List InstanceEntry
  pub memories : List ℕ
  pub tables : List ℕ
  pub exception_types : List ℕ
  pub globals : List ℕ
  pub contexts : List Context
  pub initial_context_mutable_globals : List Reference

-- `unreferencedObjects`, a set as a list, and `pendingScanObjects`, a stack with its top first.
pub data GcState : Type 0 where
  gc_state : List ℕ → List ℕ → GcState

-- `compartment->instances[id]`; the outer `none` is an index that is not allocated.
unfoldable pub find_instance : ℕ → List InstanceEntry → Option (Option ℕ)
find_instance id [] = none
find_instance id (e ∷ entries) =
    let others = find_instance id entries in if id == e.id then some e.instance_ else others

-- `UINTPTR_MAX`
abbrev pub no_instance : ℕ
no_instance = 18446744073709551615

-- What a reference leads to: an object, nothing, or a failed assertion.
pub data Target : Type 0 where
  nothing : Target
  to : ℕ → Target
  failed : Target

abbrev pub found : Option (Option ℕ) → Target
found none = failed
found (some none) = nothing
found (some (some x)) = to x

abbrev pub target : Compartment → Reference → Target
target c null = nothing
target c (function f) =
    if f.instance_id == no_instance
    then nothing
    else found (find_instance f.instance_id c.instances)
target c (object x) = to x

abbrev pub mark : ℕ → GcState → GcState
mark x (gc_state unreferenced pending) =
    if contains x unreferenced
    then gc_state (remove x unreferenced) (x ∷ pending)
    else gc_state unreferenced pending

-- visitReference; `none` is a failed assertion.
abbrev pub visit_target : Target → GcState → Option GcState
visit_target nothing st = some st
visit_target (to x) st = some (mark x st)
visit_target failed st = none

abbrev pub visit_reference : Compartment → Reference → GcState → Option GcState
visit_reference c r st = visit_target (target c r) st

unfoldable pub visit_references : Compartment → List Reference → GcState → Option GcState
visit_references c [] st = some st
visit_references c (r ∷ references) st = elim (visit_reference c r st) [
  | some next ↦ visit_references c references next
  | none ↦ none
]

abbrev pub optional : Option ℕ → Reference
optional (some x) = object x
optional none = null

abbrev pub function_reference : Option Function → Reference
function_reference (some f) = function f
function_reference none = null

abbrev pub global_references : Compartment → Global → List Reference
global_references c g =
    if g.is_reference
    then (if g.is_mutable
        then get_or c.initial_context_mutable_globals g.mutable_global_index null
          ∷ map (λ x. get_or x.mutable_globals g.mutable_global_index null) c.contexts
        else [])
      ++ g.initial_value ∷ []
    else []

abbrev pub instance_references : Instance → List Reference
instance_references i =
    map function_reference i.functions
    ++ map object i.tables
    ++ map object i.memories
    ++ map object i.globals
    ++ map object i.exception_types

-- The references that `scanObject` visits after the compartment's, by the kind; `none` is a failed
-- assertion or WAVM_UNREACHABLE.
abbrev pub child_references : Compartment → ℕ → Contents → Option (List Reference)
child_references c x (table elements) = some elements
child_references c x (global g) = some (global_references c g)
child_references c x (instance_ i) = some (instance_references i)
child_references c x compartment = if x == c.address then some [] else none
child_references c x memory = some []
child_references c x exception_type = some []
child_references c x context = some []
child_references c x function = none
child_references c x foreign = none
child_references c x invalid = none

abbrev pub is_in_compartment : Compartment → Option ℕ → Bool
is_in_compartment c none = true
is_in_compartment c (some x) = x == c.address

abbrev pub after_compartment : Option ℕ → Option (List Reference) → Option (List Reference)
after_compartment pointer (some children) = some (optional pointer ∷ children)
after_compartment pointer none = none

abbrev pub object_references : Compartment → ℕ → Option GcObject → Option (List Reference)
object_references c x (some o) =
    if is_in_compartment c o.compartment
    then after_compartment o.compartment (child_references c x o.contents)
    else none
object_references c x none = none

-- All references that `scanObject` visits, in their order.
unfoldable pub references : Compartment → ℕ → Option (List Reference)
references c x = object_references c x (c.store x)

pub data Scanned : Type 0 where
  finished : GcState → Scanned
  failed : Scanned
  out_of_fuel : Scanned

abbrev pub scan_object : Compartment → ℕ → GcState → Option GcState
scan_object c x st = elim (references c x) [ some rs ↦ visit_references c rs st | none ↦ none ]

-- The loop over the pending objects, on fuel.
unfoldable pub scan_all : Compartment → ℕ → GcState → Scanned
unfolding references visit_references
scan_all c fuel (gc_state unreferenced []) = finished (gc_state unreferenced [])
scan_all c zero (gc_state unreferenced (x ∷ pending)) = out_of_fuel
scan_all c (suc fuel) (gc_state unreferenced (x ∷ pending)) =
    elim (scan_object c x (gc_state unreferenced pending)) [
      | some next ↦ scan_all c fuel next
      | none ↦ failed
    ]

-- A pointer and whether its object is a root even without root references of its own.
pub record Candidate : Type 0 where
  pub address : ℕ
  pub force_root : Bool

abbrev pub has_root_references : Option GcObject → Bool
has_root_references (some o) = ltb 0 o.num_root_references
has_root_references none = false

abbrev pub is_root : Compartment → Candidate → Bool
is_root c x = x.force_root || has_root_references (c.store x.address)

abbrev pub init_gc_object : Compartment → Candidate → GcState → GcState
init_gc_object c x (gc_state unreferenced pending) =
    if is_root c x
    then gc_state unreferenced (x.address ∷ pending)
    else gc_state (x.address ∷ unreferenced) pending

unfoldable pub init_gc_objects : Compartment → List Candidate → GcState → GcState
init_gc_objects c [] st = st
init_gc_objects c (x ∷ candidates) st = init_gc_objects c candidates (init_gc_object c x st)

-- The loop that looks for a function of the instance that is a root.
unfoldable pub has_root_function : ℕ → List (Option Function) → Bool
has_root_function id [] = false
has_root_function id (none ∷ functions) = has_root_function id functions
has_root_function id (some f ∷ functions) =
    (ltb 0 f.num_root_references && f.instance_id == id) || has_root_function id functions

abbrev pub instance_has_root : Option GcObject → Bool
instance_has_root (some o) = elim o.contents [
  | instance_ i ↦ has_root_function i.id i.functions
  | _ ↦ false
]
instance_has_root none = false

unfoldable pub instance_candidates : Compartment → List InstanceEntry → List Candidate
unfolding has_root_function
instance_candidates c [] = []
instance_candidates c (e ∷ entries) = elim e.instance_ [
  | some x ↦
      (record { address = x; force_root = instance_has_root (c.store x) })
      ∷ instance_candidates c entries
  | none ↦ instance_candidates c entries
]

abbrev pub candidate : ℕ → Candidate
candidate x = record { address = x; force_root = false }

-- All objects that the collector considers, in the order of `initGCObject`.
unfoldable pub candidates : Compartment → List Candidate
unfolding instance_candidates
candidates c =
    candidate c.address ∷ instance_candidates c c.instances
    ++ map candidate c.memories
    ++ map candidate c.tables
    ++ map candidate c.exception_types
    ++ map candidate c.globals
    ++ map (λ x. candidate x.address) c.contexts

abbrev pub initial_state : Compartment → GcState
initial_state c = init_gc_objects c (candidates c) (gc_state [] [])

-- `numInitialObjects`
abbrev pub num_objects : GcState → ℕ
num_objects (gc_state unreferenced pending) = length pending + length unreferenced

-- The objects that are deleted before the compartment, and whether that is deleted too.
pub record Garbage : Type 0 where
  pub deleted : List ℕ
  pub was_compartment_unreferenced : Bool

pub data Collected : Type 0 where
  collected : Garbage → Collected
  failed : Collected
  out_of_fuel : Collected

abbrev pub garbage_of : Compartment → GcState → Garbage
garbage_of c (gc_state unreferenced pending) = record {
  deleted = remove c.address unreferenced;
  was_compartment_unreferenced = contains c.address unreferenced;
}

abbrev pub delete_unreferenced : Compartment → Scanned → Collected
delete_unreferenced c (finished st) = collected (garbage_of c st)
delete_unreferenced c failed = failed
delete_unreferenced c out_of_fuel = out_of_fuel

-- Each turn of the loop takes one of the initial objects for good.
unfoldable pub collect_garbage : Compartment → Collected
unfolding scan_all init_gc_objects candidates
collect_garbage c =
    delete_unreferenced c (scan_all c (num_objects (initial_state c)) (initial_state c))
