-- ===== src/Validate/Sound/Imports.antt =====
-- What the sections before the code establish about the types of functions.
use wavm.Prelude.{
  ℕ, zero, suc, ◌-◌, ◌<◌, ◌≡◌, true, false, List, [], ◌∷◌, length, arith, ltb, leb, get_elem?,
  get_elem?-some, map_option, some, Bool-cases, inl, inr, ◌⊎◌,
}
use wavm.Ir.Features.{Feature}
use wavm.Ir.Module.{Module, Import, FunctionDef, get_type, function_type_index}
use wavm.Validate.Keeps.{Checks}
use wavm.Validate.Keeps.References.{IsIndexed, Checks-bind}
use wavm.Validate.References.{Declared, validate_function_type}
use wavm.Validate.Result.{Result, ok, invalid, fault}
use wavm.Validate.Sections.{
  each, validate_function_imports, validate_function_declaration, validate_function_declarations,
}

-- A property of every element.
abbrev pub Every : {A : Type 0} → (A → Type 0) → List A → Type 0
Every P [] = Unit
Every P (a ∷ list) = P a × Every P list

pub each-Checks :
    {A : Type 0} (P : A → Type 0) (f : A → Result (Unit {0})) (list : List A)
    → ((a : A) → Checks (λ _. P a) (f a))
    → Checks (λ _. Every P list) (each f list)
unfolding each
each-Checks P f [] h = tt
each-Checks P f (a ∷ list) h =
    Checks-bind (λ _. P a) (λ _. Every P (a ∷ list)) (f a) _ (h a)
      λ _ p. weaken (each f list) (each-Checks P f list h) p
  where
    weaken :
        (r : Result (Unit {0}))
        → Checks (λ _. Every P list) r
        → P a
        → Checks (λ _. Every P (a ∷ list)) r
    weaken (ok x) q p = (p, q)
    weaken (invalid e) q p = tt
    weaken fault q p = q

pub validate_function_type-Below :
    (m : Module) (i : ℕ) → Checks (λ _. i < length m.types) (validate_function_type m i)
unfolding validate_function_type
validate_function_type-Below m i = elim (Bool-cases (leb (length m.types) i)) [
  | inl out ↦ ground arith
  | inr low ↦ let (type, k) = get_elem?-some m.types i (ground arith) in ground (arith, k)
]

pub validate_function_imports-Below :
    (m : Module) (i : ℕ) (imports : List (Import ℕ)) (declared : Declared)
    → Checks
        (λ _. Every (λ x. x.type < length m.types) imports)
        (validate_function_imports m i imports declared)
unfolding validate_function_imports
validate_function_imports-Below m i [] declared = tt
validate_function_imports-Below m i (x ∷ imports) declared =
    Checks-bind (λ _. x.type < length m.types) _ (validate_function_type m x.type) _
      (validate_function_type-Below m x.type)
      λ _ p.
        weaken (validate_function_imports m (suc i) imports _)
          (validate_function_imports-Below m (suc i) imports _) p
  where
    weaken :
        (r : Result Declared)
        → Checks (λ _. Every (λ x. x.type < length m.types) imports) r
        → x.type < length m.types
        → Checks (λ _. Every (λ x. x.type < length m.types) (x ∷ imports)) r
    weaken (ok d) q p = (p, q)
    weaken (invalid e) q p = tt
    weaken fault q p = q

validate_function_declaration-Below :
    (m : Module) (def : FunctionDef)
    → Checks (λ _. def.type < length m.types) (validate_function_declaration m def)
unfolding validate_function_declaration
validate_function_declaration-Below m def =
    Checks-bind (λ _. def.type < length m.types) _ (validate_function_type m def.type) _
      (validate_function_type-Below m def.type) λ type p. ground (arith, p)

pub validate_function_declarations-Below :
    (m : Module)
    → Checks
        (λ _. Every (λ def. def.type < length m.types) m.functions.defs)
        (validate_function_declarations m)
unfolding validate_function_declarations
validate_function_declarations-Below m =
    each-Checks (λ def. def.type < length m.types) (validate_function_declaration m)
      m.functions.defs (validate_function_declaration-Below m)

some_type :
    {A : Type 0} (type_of : A → ℕ) (n : ℕ) (list : List A) (i t : ℕ)
    → Every (λ a. type_of a < n) list
    → map_option type_of (get_elem? list i) ≡ some t
    → t < n
some_type type_of n [] i t h e = cc
some_type type_of n (x ∷ list) zero t h e = ground (arith, h.0)
some_type type_of n (x ∷ list) (suc i) t h e = some_type type_of n list i t h.1 e

-- The imports' and the definitions' type indices are in range.
pub Every-IsIndexed :
    (m : Module)
    → m.feature_spec.enabled Feature.mvp ≡ true
    → Every (λ x. x.type < length m.types) m.functions.imports
    → Every (λ def. def.type < length m.types) m.functions.defs
    → IsIndexed m
unfolding get_type
Every-IsIndexed m mvp imports defs = record {
  mvp = mvp;
  function_types = λ i t e. go i t (Bool-cases (ltb i (length m.functions.imports))) e;
}
  where
    go :
        (i t : ℕ)
        → (ltb i (length m.functions.imports) ≡ true) ⊎ (ltb i (length m.functions.imports) ≡ false)
        → function_type_index m i ≡ some t
        → t < length m.types
    go i t (inl is_import) e =
        some_type (λ x. x.type) (length m.types) m.functions.imports i t imports (rw is_import at e)
    go i t (inr is_def) e =
        some_type (λ d. d.type) (length m.types) m.functions.defs (i - length m.functions.imports) t
          defs (rw is_def at e)
