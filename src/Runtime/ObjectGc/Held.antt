-- ===== src/Runtime/ObjectGc/Held.antt =====
-- The references that `scanObject` of Lib/Runtime/ObjectGC.cpp visits, beside the pointers of the object.
use wavm.Prelude.{
  ℕ, ◌≡◌, ◌⊎◌, ◌↔◌, refl, ap, sym, subst, ◌∙◌, inl, inr, false, List, [], ◌∷◌, map, get_or, Option,
  some, none, ◌==◌, arith, Bool-cases, if◌then◌else◌,
}
use wavm.Runtime.ObjectGc.{
  Function, Reference, Instance, Global, Contents, GcObject, Compartment, no_instance,
  find_instance, to, nothing, found, target, optional, function_reference, global_references,
  instance_references, child_references, is_in_compartment, after_compartment, object_references,
  references,
}
use wavm.Runtime.ObjectGc.Visits.{Leads}
use wavm.Runtime.ObjectGc.Scan.{Refers, IsScannable}
use wavm.Runtime.ObjectGc.Pointers.{
  Any, Any-map, Any-joined, both, regroup, LeadsTo, AnyFunction, AnyHeld, PointsTo,
}

found-to : (q : Option (Option ℕ)) (y : ℕ) → found q ≡ to y → q ≡ some (some y)
found-to none y e = absurd cc
found-to (some none) y e = absurd cc
found-to (some (some x)) y e = let k : x ≡ y = cc in ap (λ z. some (some z)) k

target-LeadsTo : (c : Compartment) (y : ℕ) (r : Reference) → target c r ≡ to y → LeadsTo c y r
target-LeadsTo c y Reference.null e = absurd cc
target-LeadsTo c y (Reference.function f) e = elim (Bool-cases (f.instance_id == no_instance)) [
  | inl h ↦
      let k : nothing ≡ to y =
        sym (ap (λ b. if b then nothing else found (find_instance f.instance_id c.instances)) h)
        ∙ e in
      absurd cc
  | inr h ↦ (
    (λ q. ground (arith, h, q)),
    found-to (find_instance f.instance_id c.instances) y (
        sym (ap (λ b. if b then nothing else found (find_instance f.instance_id c.instances)) h)
        ∙ e),
  )
]
target-LeadsTo c y (Reference.object x) e = cc

LeadsTo-target : (c : Compartment) (y : ℕ) (r : Reference) → LeadsTo c y r → target c r ≡ to y
LeadsTo-target c y Reference.null h = absurd h
LeadsTo-target c y (Reference.function f) (n, e) =
    let k : (f.instance_id == no_instance) ≡ false = ground (arith, n) in
    ap (λ b. if b then nothing else found (find_instance f.instance_id c.instances)) k ∙ ap found e
LeadsTo-target c y (Reference.object x) e = ap to e

Leads-Any : (c : Compartment) (rs : List Reference) (y : ℕ) → Leads c rs y ↔ Any (LeadsTo c y) rs
Leads-Any c [] y = ((λ h. h), (λ h. h))
Leads-Any c (r ∷ rs) y =
    let (f, g) = Leads-Any c rs y in
    (
      (λ h. elim h [ inl e ↦ inl (target-LeadsTo c y r e) | inr k ↦ inr (f k) ]),
      (λ h. elim h [ inl e ↦ inl (LeadsTo-target c y r e) | inr k ↦ inr (g k) ]),
    )

-- No reference to a null pointer has the property.
module _ (P : Reference → Type 0) (null : ¬ P Reference.null) where
  Any-functions :
      (functions : List (Option Function))
      → Any P (map function_reference functions) ↔ Any (AnyFunction P) functions
  Any-functions [] = ((λ h. h), (λ h. h))
  Any-functions (none ∷ functions) =
      let (f, g) = Any-functions functions in
      (
        (λ h. elim h [ inl e ↦ absurd (null e) | inr k ↦ inr (f k) ]),
        (λ h. elim h [ inl e ↦ absurd e | inr k ↦ inr (g k) ]),
      )
  Any-functions (some x ∷ functions) =
      let (f, g) = Any-functions functions in
      (
        (λ h. elim h [ inl e ↦ inl e | inr k ↦ inr (f k) ]),
        (λ h. elim h [ inl e ↦ inl e | inr k ↦ inr (g k) ]),
      )

  Any-instance_references :
      (c : Compartment) (i : Instance)
      → Any P (instance_references i) ↔ AnyHeld c P (Contents.instance_ i)
  Any-instance_references c i =
      both
        (Any-joined P _ _
          (Any-joined P _ _
            (Any-joined P _ _
              (Any-joined P _ _ (Any-functions i.functions) (Any-map P Reference.object i.tables))
              (Any-map P Reference.object i.memories))
            (Any-map P Reference.object i.globals))
          (Any-map P Reference.object i.exception_types))
        (both regroup (both regroup regroup))

  Any-global_references :
      (c : Compartment) (g : Global)
      → Any P (global_references c g) ↔ AnyHeld c P (Contents.global g)
  Any-global_references c g = elim (Bool-cases g.is_reference) [
    | inl h ↦ rw h (elim (Bool-cases g.is_mutable) [
      | inl k ↦ rw k (
          let (f, h) =
            Any-joined P _ (g.initial_value ∷ [])
              (Any-map P (λ x. get_or x.mutable_globals g.mutable_global_index Reference.null)
                c.contexts)
              ((λ p. p), (λ p. p)) in
          (
            (λ p. elim p [
              | inl x ↦ (refl, inr (refl, inl x))
              | inr q ↦ elim (f q) [
                | inl x ↦ (refl, inr (refl, inr x))
                | inr y ↦ elim y [ inl x ↦ (refl, inl x) | inr x ↦ absurd x ]
              ]
            ]),
            (λ (e, p). elim p [
              | inl x ↦ inr (h (inr (inl x)))
              | inr (e, q) ↦ elim q [ inl x ↦ inl x | inr x ↦ inr (h (inl x)) ]
            ]),
          ))
      | inr k ↦ rw k (
        (λ p. elim p [ inl x ↦ (refl, inl x) | inr x ↦ absurd x ]),
        (λ (e, p). elim p [ inl x ↦ inl x | inr (e, x) ↦ absurd cc ]),
      )
    ])
    | inr h ↦ rw h ((λ p. absurd p), (λ (e, p). absurd cc))
  ]

  abbrev AnyIn : Option (List Reference) → Type 0
  AnyIn (some rs) = Any P rs
  AnyIn none = ⊥

  AnyIn-child_references :
      (c : Compartment) (x : ℕ) (contents : Contents)
      → AnyIn (child_references c x contents) ↔ AnyHeld c P contents
  AnyIn-child_references c x (Contents.table elements) = ((λ h. h), (λ h. h))
  AnyIn-child_references c x (Contents.global g) = Any-global_references c g
  AnyIn-child_references c x (Contents.instance_ i) = Any-instance_references c i
  AnyIn-child_references c x Contents.compartment = elim (Bool-cases (x == c.address)) [
    | inl e ↦ rw e ((λ h. h), (λ h. h))
    | inr e ↦ rw e ((λ h. h), (λ h. h))
  ]
  AnyIn-child_references c x Contents.memory = ((λ h. h), (λ h. h))
  AnyIn-child_references c x Contents.exception_type = ((λ h. h), (λ h. h))
  AnyIn-child_references c x Contents.context = ((λ h. h), (λ h. h))
  AnyIn-child_references c x Contents.function = ((λ h. h), (λ h. h))
  AnyIn-child_references c x Contents.foreign = ((λ h. h), (λ h. h))
  AnyIn-child_references c x Contents.invalid = ((λ h. h), (λ h. h))

  AnyIn-after :
      (pointer : Option ℕ) (children : Option (List Reference)) (rs : List Reference)
      → after_compartment pointer children ≡ some rs
      → Any P rs ↔ (P (optional pointer) ⊎ AnyIn children)
  AnyIn-after pointer none rs e = absurd cc
  AnyIn-after pointer (some children) rs e =
      let k : (optional pointer ∷ children) ≡ rs = cc in
      subst (λ l. Any P l ↔ (P (optional pointer) ⊎ Any P children)) k ((λ h. h), (λ h. h))

  -- What the collector visits of an object that is stored.
  Any-object_references :
      (c : Compartment) (x : ℕ) (o : GcObject) (rs : List Reference)
      → object_references c x (some o) ≡ some rs
      → Any P rs ↔ (P (optional o.compartment) ⊎ AnyHeld c P o.contents)
  Any-object_references c x o rs e =
      let visited = after_compartment o.compartment (child_references c x o.contents) in
      elim (Bool-cases (is_in_compartment c o.compartment)) [
        | inr h ↦
            let k : none ≡ some rs = sym (ap (λ b. if b then visited else none) h) ∙ e in absurd cc
        | inl h ↦
            let (f, g) =
              AnyIn-after o.compartment (child_references c x o.contents) rs
                (sym (ap (λ b. if b then visited else none) h) ∙ e) in
            let (p, q) = AnyIn-child_references c x o.contents in
            (
              (λ a. elim (f a) [ inl y ↦ inl y | inr y ↦ inr (p y) ]),
              (λ a. elim a [ inl y ↦ g (inl y) | inr y ↦ g (inr (q y)) ]),
            )
      ]

optional-LeadsTo :
    (c : Compartment) (y : ℕ) (pointer : Option ℕ)
    → LeadsTo c y (optional pointer) ↔ (pointer ≡ some y)
optional-LeadsTo c y none = ((λ h. absurd h), (λ e. absurd cc))
optional-LeadsTo c y (some x) = ((λ e. ap some e), (λ e. cc))

no_null : (c : Compartment) (y : ℕ) → ¬ LeadsTo c y Reference.null
no_null c y h = h

-- What scanning a stored object visits leads to what the object points to.
Leads-stored :
    (c : Compartment) (x y : ℕ) (o : GcObject) (rs : List Reference)
    → object_references c x (some o) ≡ some rs
    → Leads c rs y ↔ ((o.compartment ≡ some y) ⊎ AnyHeld c (LeadsTo c y) o.contents)
Leads-stored c x y o rs e =
    let (f, g) = Any-object_references (LeadsTo c y) (no_null c y) c x o rs e in
    let (p, q) = optional-LeadsTo c y o.compartment in
    both (Leads-Any c rs y) (
      (λ a. elim (f a) [ inl b ↦ inl (p b) | inr b ↦ inr b ]),
      (λ a. elim a [ inl b ↦ g (inl (q b)) | inr b ↦ g (inr b) ]),
    )

pub Refers-PointsTo : (c : Compartment) (x y : ℕ) → Refers c x y → PointsTo c x y
unfolding references
Refers-PointsTo c x y r = go (c.store x) refl
  where
    go : (q : Option GcObject) → c.store x ≡ q → PointsTo c x y
    go none e =
        let k : none ≡ some r.visited = sym (ap (object_references c x) e) ∙ r.scanned in absurd cc
    go (some o) e = record {
      stored = o;
      is_stored = e;
      points =
          (Leads-stored c x y o r.visited (sym (ap (object_references c x) e) ∙ r.scanned)).0
            r.leads;
    }

pub PointsTo-Refers : (c : Compartment) (x y : ℕ) → IsScannable c x → PointsTo c x y → Refers c x y
unfolding references
PointsTo-Refers c x y s p = record {
  visited = s.visited;
  scanned = s.scanned;
  leads =
      (Leads-stored c x y p.stored s.visited
          (sym (ap (object_references c x) p.is_stored) ∙ s.scanned)).1
        p.points;
}
