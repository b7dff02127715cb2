-- ===== src/Runtime/Linker/Resolution.antt =====
-- What linking promises to the instantiation that follows it.
use wavm.Prelude.{
  ℕ, get_elem?, ◌≡◌, refl, ap, ◌∙◌, Bool, true, false, ◌&&◌, List, [], ◌∷◌, length, ◌==◌, Option,
  some, none, if◌then◌else◌, arith, ==_iff,
}
use wavm.Ir.Types.{
  ExternType, ExternKind, FunctionType, TableType, MemoryType, GlobalType, ExceptionType,
}
use wavm.Ir.Module.{Name, Module, Import, KindAndIndex}
use wavm.Runtime.Linker.{
  Object, is_a, Resolved, not_found, found, Answer, Resolver, MissingImport, LinkResult,
  function_request, request, Links, push_resolved, push_missing, link_import, link_imports,
  num_imports, is_empty, link_result, link_module,
}

-- A resolver that finds an object, if any, of the type that it was asked for.
abbrev pub IsAnswer : ExternType → Resolved → Type 0
IsAnswer type not_found = Unit
IsAnswer type (found none) = ⊥
IsAnswer type (found (some object)) = is_a object type ≡ true

abbrev pub IsResolver : {S : Type 0} → Resolver S → Type 0
IsResolver {S} resolve =
    (s : S) (m e : Name) (type : ExternType) → IsAnswer type (resolve s m e type).resolved

-- The request is for the import's names, with the type that the import has in the module.
abbrev pub IsRequest : {T : Type 0} → Import T → ExternType → MissingImport → Type 0
IsRequest x type r =
    (r.module_name ≡ x.module_name) × (r.export_name ≡ x.export_name) × (r.type ≡ type)

-- The request describes the import of a kind at an index.
abbrev pub Describes : Module → ExternKind → ℕ → MissingImport → Type 0
Describes m ExternKind.function index r =
    (x : Import ℕ) × (type : FunctionType) × (get_elem? m.functions.imports index ≡ some x)
    × (get_elem? m.types x.type ≡ some type)
    × IsRequest x (ExternType.function type) r
Describes m ExternKind.table index r =
    (x : Import TableType) × (get_elem? m.tables.imports index ≡ some x)
    × IsRequest x (ExternType.table x.type) r
Describes m ExternKind.memory index r =
    (x : Import MemoryType) × (get_elem? m.memories.imports index ≡ some x)
    × IsRequest x (ExternType.memory x.type) r
Describes m ExternKind.global index r =
    (x : Import GlobalType) × (get_elem? m.globals.imports index ≡ some x)
    × IsRequest x (ExternType.global x.type) r
Describes m ExternKind.exception_type index r =
    (x : Import ExceptionType) × (get_elem? m.exception_types.imports index ≡ some x)
    × IsRequest x (ExternType.exception_type x.type) r
Describes m ExternKind.invalid index r = ⊥

-- Each import names one of its kind, a function import one of a type in range.
abbrev pub AreDescribed : Module → List KindAndIndex → Type 0
AreDescribed m [] = Unit
AreDescribed m (i ∷ imports) =
    ((r : MissingImport) × Describes m i.kind i.index r) × AreDescribed m imports

-- The imports in their order, each asked of the resolver once, in the state that the one before left:
-- the object that is found, of the import's type, is its entry; one that is not found has no entry
-- and is listed as missing.
pub data Linked {S : Type 0} (m : Module) (resolve : Resolver S)
    : S → List KindAndIndex → List (Option Object) → List MissingImport → Type 0 where
  done : {s : S} → Linked m resolve s [] [] []
  import_found :
      {s : S} {i : KindAndIndex} {imports : List KindAndIndex} {objects : List (Option Object)}
      {missing : List MissingImport} (r : MissingImport) (o : Object)
      → Describes m i.kind i.index r
      → (resolve s r.module_name r.export_name r.type).resolved ≡ found (some o)
      → is_a o r.type ≡ true
      → Linked m resolve
          (resolve s r.module_name r.export_name r.type).state
          imports
          objects
          missing
      → Linked m resolve s (i ∷ imports) (some o ∷ objects) missing
  import_missing :
      {s : S} {i : KindAndIndex} {imports : List KindAndIndex} {objects : List (Option Object)}
      {missing : List MissingImport} (r : MissingImport)
      → Describes m i.kind i.index r
      → (resolve s r.module_name r.export_name r.type).resolved ≡ not_found
      → Linked m resolve
          (resolve s r.module_name r.export_name r.type).state
          imports
          objects
          missing
      → Linked m resolve s (i ∷ imports) (none ∷ objects) (r ∷ missing)

abbrev is_some : Option Object → Bool
is_some (some o) = true
is_some none = false

abbrev pub all_resolved : List (Option Object) → Bool
all_resolved [] = true
all_resolved (o ∷ resolved) = is_some o && all_resolved resolved

asked :
    (m : Module) (kind : ExternKind) (index : ℕ) (r : MissingImport)
    → Describes m kind index r
    → (q : MissingImport) × (request m (record { kind = kind; index = index }) ≡ some q)
      × Describes m kind index q
unfolding request
asked m ExternKind.function index r (x, type, e, f, n) = (
  record {
    module_name = x.module_name;
    export_name = x.export_name;
    type = ExternType.function type;
  },
  rw e (rw (f, function_request) refl),
  (x, type, e, f, (refl, refl, refl)),
)
asked m ExternKind.table index r (x, e, n) = (
  record {
    module_name = x.module_name;
    export_name = x.export_name;
    type = ExternType.table x.type;
  },
  rw e refl,
  (x, e, (refl, refl, refl)),
)
asked m ExternKind.memory index r (x, e, n) = (
  record {
    module_name = x.module_name;
    export_name = x.export_name;
    type = ExternType.memory x.type;
  },
  rw e refl,
  (x, e, (refl, refl, refl)),
)
asked m ExternKind.global index r (x, e, n) = (
  record {
    module_name = x.module_name;
    export_name = x.export_name;
    type = ExternType.global x.type;
  },
  rw e refl,
  (x, e, (refl, refl, refl)),
)
asked m ExternKind.exception_type index r (x, e, n) = (
  record {
    module_name = x.module_name;
    export_name = x.export_name;
    type = ExternType.exception_type x.type;
  },
  rw e refl,
  (x, e, (refl, refl, refl)),
)
asked m ExternKind.invalid index r h = absurd h

abbrev AreLinks : {S : Type 0} → Module → Resolver S → List KindAndIndex → S → Option Links → Type 0
AreLinks m resolve imports s l =
    (k : Links) × (l ≡ some k)
    × Linked m resolve s imports k.resolved k.missing
    × (is_empty k.missing ≡ all_resolved k.resolved)

one_link :
    {S : Type 0} (m : Module) (resolve : Resolver S) (i : KindAndIndex)
    (imports : List KindAndIndex) (s : S) (r : MissingImport) (a : Resolved) (rest : Option Links)
    → Describes m i.kind i.index r
    → (resolve s r.module_name r.export_name r.type).resolved ≡ a
    → IsAnswer r.type a
    → AreLinks m resolve imports (resolve s r.module_name r.export_name r.type).state rest
    → AreLinks m resolve (i ∷ imports) s (link_import r a rest)
one_link m resolve i imports s r not_found rest d e h (k, p, x, y) = (
  record { missing = r ∷ k.missing; resolved = none ∷ k.resolved },
  ap (push_missing r) p,
  import_missing r d e x,
  ground arith,
)
one_link m resolve i imports s r (found none) rest d e h l = absurd h
one_link m resolve i imports s r (found (some object)) rest d e h (k, p, x, y) = (
  record { missing = k.missing; resolved = some object ∷ k.resolved },
  ap (λ b. if b then push_resolved object rest else none) h ∙ ap (push_resolved object) p,
  import_found r object d e h x,
  y,
)

all_links :
    {S : Type 0} (m : Module) (resolve : Resolver S) (imports : List KindAndIndex) (s : S)
    → IsResolver resolve
    → AreDescribed m imports
    → AreLinks m resolve imports s (link_imports m resolve imports s)
unfolding link_imports
all_links m resolve [] s v h = (record { missing = []; resolved = [] }, refl, done, refl)
all_links {S} m resolve (i ∷ imports) s v ((q, d), h) =
    let (r, e, f) = asked m i.kind i.index q d in
    let a : Answer S = resolve s r.module_name r.export_name r.type in
    let next = link_imports m resolve imports a.state in
    let (k, p, x, y) =
      one_link m resolve i imports s r a.resolved next f refl
        (v s r.module_name r.export_name r.type) (all_links m resolve imports a.state v h) in
    (
      k,
      ap
            (λ q. elim q [
              | some z ↦ link_import z (resolve s z.module_name z.export_name z.type).resolved (
                  link_imports m resolve imports
                    (resolve s z.module_name z.export_name z.type).state)
              | none ↦ none
            ])
            e
          ∙ p,
      x,
      y,
    )

-- Linking a module whose imports are all listed and in range, with a resolver that finds objects of
-- the types asked for, fails no assertion. The resolver is asked for each import once, in their order,
-- by the import's module name, export name and type, in the state that it had after the import
-- before; an object that it finds is the import's entry in the result, an import that it does not
-- find has no object there and is listed as missing, and the result is a success exactly if every
-- import has an object.
pub link_module-Linked :
    {S : Type 0} (m : Module) (resolve : Resolver S) (s : S)
    → IsResolver resolve
    → length m.imports ≡ num_imports m
    → AreDescribed m m.imports
    → (r : LinkResult) × (link_module m resolve s ≡ some r)
      × Linked m resolve s m.imports r.resolved_imports r.missing_imports
      × (r.success ≡ all_resolved r.resolved_imports)
unfolding link_module
link_module-Linked m resolve s v n h =
    let (k, p, x, y) = all_links m resolve m.imports s v h in
    let b : (length m.imports == num_imports m) ≡ true =
      (==_iff (length m.imports) (num_imports m)).1 n in
    (
      record {
        missing_imports = k.missing;
        resolved_imports = k.resolved;
        success = is_empty k.missing;
      },
      ap (λ c. if c then link_result (link_imports m resolve m.imports s) else none) b
          ∙ ap link_result p,
      x,
      y,
    )
