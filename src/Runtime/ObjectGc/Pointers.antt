-- ===== src/Runtime/ObjectGc/Pointers.antt =====
-- The objects of a compartment and the pointers between them, as Lib/Runtime/RuntimePrivate.h lays
-- them out: what lives in a compartment, independently of the order in which the collector of
-- Lib/Runtime/ObjectGC.cpp looks at it.
use wavm.Prelude.{
  ℕ, ◌<◌, ◌≡◌, ◌≢◌, ◌⊎◌, ◌↔◌, inl, inr, true, List, [], ◌∷◌, ◌++◌, map, get_or, Option, some, none,
}
use wavm.Runtime.ObjectGc.{
  Function, Reference, Instance, Contents, GcObject, Compartment, no_instance, find_instance,
}

-- That an element of the list has the property.
abbrev pub Any : {A : Type 0} → (A → Type 0) → List A → Type 0
Any P [] = ⊥
Any P (a ∷ list) = P a ⊎ Any P list

pub Any-imp :
    {A : Type 0} {P Q : A → Type 0} (list : List A)
    → ((a : A) → P a → Q a)
    → Any P list
    → Any Q list
Any-imp [] h p = p
Any-imp (a ∷ list) h (inl p) = inl (h a p)
Any-imp (a ∷ list) h (inr p) = inr (Any-imp list h p)

pub Any-append :
    {A : Type 0} (P : A → Type 0) (xs ys : List A) → Any P (xs ++ ys) ↔ (Any P xs ⊎ Any P ys)
Any-append P [] ys = ((λ p. inr p), (λ p. elim p [ inl q ↦ absurd q | inr q ↦ q ]))
Any-append P (x ∷ xs) ys =
    let (f, g) = Any-append P xs ys in
    (
      (λ p. elim p [
        | inl q ↦ inl (inl q)
        | inr q ↦ elim (f q) [ inl r ↦ inl (inr r) | inr r ↦ inr r ]
      ]),
      (λ p. elim p [
        | inl q ↦ elim q [ inl r ↦ inl r | inr r ↦ inr (g (inl r)) ]
        | inr q ↦ inr (g (inr q))
      ]),
    )

pub Any-map :
    {A B : Type 0} (P : B → Type 0) (f : A → B) (list : List A)
    → Any P (map f list) ↔ Any (λ a. P (f a)) list
Any-map P f [] = ((λ p. p), (λ p. p))
Any-map P f (a ∷ list) =
    let (g, h) = Any-map P f list in
    (
      (λ p. elim p [ inl q ↦ inl q | inr q ↦ inr (g q) ]),
      (λ p. elim p [ inl q ↦ inl q | inr q ↦ inr (h q) ]),
    )

pub both : {A B C : Type 0} → A ↔ B → B ↔ C → A ↔ C
both (f, g) (h, k) = ((λ a. h (f a)), (λ c. g (k c)))

pub regroup : {A B C : Type 0} → ((A ⊎ B) ⊎ C) ↔ (A ⊎ (B ⊎ C))
regroup = (
  (λ x. elim x [ inl y ↦ elim y [ inl a ↦ inl a | inr b ↦ inr (inl b) ] | inr c ↦ inr (inr c) ]),
  (λ x. elim x [ inl a ↦ inl (inl a) | inr y ↦ elim y [ inl b ↦ inl (inr b) | inr c ↦ inr c ] ]),
)

pub Any-joined :
    {A C D : Type 0} (P : A → Type 0) (xs ys : List A)
    → Any P xs ↔ C
    → Any P ys ↔ D
    → Any P (xs ++ ys) ↔ (C ⊎ D)
Any-joined P xs ys (f, g) (h, k) = both (Any-append P xs ys) (
  (λ x. elim x [ inl a ↦ inl (f a) | inr b ↦ inr (h b) ]),
  (λ x. elim x [ inl c ↦ inl (g c) | inr d ↦ inr (k d) ]),
)

-- What stands in a compartment: itself, and what its maps of instances, memories, tables, exception
-- types, globals and contexts hold.
pub data IsObject (c : Compartment) (x : ℕ) : Type 0 where
  itself : c.address ≡ x → IsObject c x
  an_instance : Any (λ e. e.instance_ ≡ some x) c.instances → IsObject c x
  a_memory : Any (λ y. y ≡ x) c.memories → IsObject c x
  a_table : Any (λ y. y ≡ x) c.tables → IsObject c x
  an_exception_type : Any (λ y. y ≡ x) c.exception_types → IsObject c x
  a_global : Any (λ y. y ≡ x) c.globals → IsObject c x
  a_context : Any (λ k. k.address ≡ x) c.contexts → IsObject c x

-- A function of the instance itself that the host holds.
abbrev pub IsHeld : ℕ → Option Function → Type 0
IsHeld id none = ⊥
IsHeld id (some f) = (0 < f.num_root_references) × (f.instance_id ≡ id)

-- What the host holds: an object with root references, or an instance with a function of its own
-- that has some.
pub data IsRoot (c : Compartment) (x : ℕ) : Type 0 where
  held : (o : GcObject) → IsObject c x → c.store x ≡ some o → 0 < o.num_root_references → IsRoot c x
  runs :
      (o : GcObject) (i : Instance)
      → Any (λ e. e.instance_ ≡ some x) c.instances
      → c.store x ≡ some o
      → o.contents ≡ Contents.instance_ i
      → Any (IsHeld i.id) i.functions
      → IsRoot c x

-- A reference to a function leads to the function's instance.
abbrev pub LeadsTo : Compartment → ℕ → Reference → Type 0
LeadsTo c y Reference.null = ⊥
LeadsTo c y (Reference.function f) =
    (f.instance_id ≢ no_instance) × (find_instance f.instance_id c.instances ≡ some (some y))
LeadsTo c y (Reference.object x) = x ≡ y

abbrev pub AnyFunction : (Reference → Type 0) → Option Function → Type 0
AnyFunction P (some f) = P (Reference.function f)
AnyFunction P none = ⊥

-- That a reference which an object holds has the property: an element of a table, a value of a global
-- of reference type, in the compartment or in a context, or what belongs to an instance.
abbrev pub AnyHeld : Compartment → (Reference → Type 0) → Contents → Type 0
AnyHeld c P (Contents.table elements) = Any P elements
AnyHeld c P (Contents.global g) =
    (g.is_reference ≡ true)
    × (P g.initial_value
        ⊎ ((g.is_mutable ≡ true)
            × (P (get_or c.initial_context_mutable_globals g.mutable_global_index Reference.null)
                ⊎ Any (λ k. P (get_or k.mutable_globals g.mutable_global_index Reference.null))
                    c.contexts)))
AnyHeld c P (Contents.instance_ i) =
    Any (AnyFunction P) i.functions
    ⊎ Any (λ x. P (Reference.object x)) i.tables
    ⊎ Any (λ x. P (Reference.object x)) i.memories
    ⊎ Any (λ x. P (Reference.object x)) i.globals
    ⊎ Any (λ x. P (Reference.object x)) i.exception_types
AnyHeld c P _ = ⊥

-- An object points to its compartment and to what the references that it holds lead to.
pub record PointsTo (c : Compartment) (x y : ℕ) : Type 0 where
  pub stored : GcObject
  pub is_stored : c.store x ≡ some stored
  pub points : (stored.compartment ≡ some y) ⊎ AnyHeld c (LeadsTo c y) stored.contents

-- The objects to which pointers lead from what the host holds.
pub data IsLive (c : Compartment) : ℕ → Type 0 where
  root : {x : ℕ} → IsRoot c x → IsLive c x
  step : {x y : ℕ} → IsLive c x → PointsTo c x y → IsObject c y → IsLive c y

-- An object of the compartment that nothing leads to.
abbrev pub IsGarbage : Compartment → ℕ → Type 0
IsGarbage c y = IsObject c y × (¬ IsLive c y)
