-- ===== src/Runtime/ObjectGc/Candidates.antt =====
-- What the collector of Lib/Runtime/ObjectGC.cpp begins with: the calls of `initGCObject`, one for
-- each object of the compartment.
use wavm.Prelude.{
  ℕ, ◌≡◌, ◌⊎◌, ◌↔◌, refl, ap, subst, ◌∙◌, inl, inr, Bool, true, false, List, [], ◌∷◌, ◌++◌, map,
  Option, some, none, ◌==◌, arith, Bool-cases, contains,
}
use wavm.Runtime.ObjectGc.{
  InstanceEntry, Compartment, GcState, gc_state, instance_has_root, Candidate, candidate, is_root,
  init_gc_object, init_gc_objects, instance_candidates, candidates,
}
use wavm.Runtime.ObjectGc.Visits.{IsIn, unreferenced, pending}
use wavm.Runtime.ObjectGc.Pointers.{
  Any, Any-imp, Any-map, Any-joined, both, regroup, IsObject, itself, an_instance, a_memory,
  a_table, an_exception_type, a_global, a_context,
}

-- The candidate of an entry that is allocated has the property.
abbrev pub OfEntry : (Candidate → Type 0) → Compartment → InstanceEntry → Type 0
OfEntry P c e =
    (x : ℕ) × (e.instance_ ≡ some x)
    × P (record { address = x; force_root = instance_has_root (c.store x) })

pub Any-instance_candidates :
    (P : Candidate → Type 0) (c : Compartment) (entries : List InstanceEntry)
    → Any P (instance_candidates c entries) ↔ Any (OfEntry P c) entries
unfolding instance_candidates
Any-instance_candidates P c [] = ((λ h. h), (λ h. h))
Any-instance_candidates P c (e ∷ entries) =
    go (Any-instance_candidates P c entries) e.instance_ refl
  where
    go :
        Any P (instance_candidates c entries) ↔ Any (OfEntry P c) entries
        → (q : Option ℕ) → e.instance_ ≡ q
        → Any P (elim q [
          | some x ↦
              (record { address = x; force_root = instance_has_root (c.store x) })
              ∷ instance_candidates c entries
          | none ↦ instance_candidates c entries
        ])
          ↔ Any (OfEntry P c) (e ∷ entries)
    go (f, g) none h = ((λ p. inr (f p)), (λ p. elim p [ inl (x, q, r) ↦ absurd cc | inr q ↦ g q ]))
    go (f, g) (some x) h = (
      (λ p. elim p [ inl q ↦ inl (x, h, q) | inr q ↦ inr (f q) ]),
      (λ p. elim p [
        | inl (z, q, r) ↦
            let k : z ≡ x = cc in
            inl (
              subst (λ z. P (record { address = z; force_root = instance_has_root (c.store z) })) k
                r)
        | inr q ↦ inr (g q)
      ]),
    )

pub Any-candidates :
    (P : Candidate → Type 0) (c : Compartment)
    → Any P (candidates c) ↔ (
        P (candidate c.address)
        ⊎ Any P (instance_candidates c c.instances)
        ⊎ Any (λ x. P (candidate x)) c.memories
        ⊎ Any (λ x. P (candidate x)) c.tables
        ⊎ Any (λ x. P (candidate x)) c.exception_types
        ⊎ Any (λ x. P (candidate x)) c.globals
        ⊎ Any (λ k. P (candidate k.address)) c.contexts)
unfolding candidates
Any-candidates P c =
    let a = candidate c.address ∷ instance_candidates c c.instances in
    let b = a ++ map candidate c.memories in
    let d = b ++ map candidate c.tables in
    let e = d ++ map candidate c.exception_types in
    let f = e ++ map candidate c.globals in
    both
      (Any-joined P f _
        (Any-joined P e _
          (Any-joined P d _
            (Any-joined P b _
              (Any-joined P a _ ((λ h. h), (λ h. h)) (Any-map P candidate c.memories))
              (Any-map P candidate c.tables))
            (Any-map P candidate c.exception_types))
          (Any-map P candidate c.globals))
        (Any-map P (λ k. candidate k.address) c.contexts))
      (both regroup (both regroup (both regroup (both regroup regroup))))

IsIn-cons : (x y : ℕ) (p : List ℕ) → IsIn y (x ∷ p) ↔ (IsIn y p ⊎ (x ≡ y))
unfolding contains
IsIn-cons x y p = (
  (λ i. elim (Bool-cases (y == x)) [
    | inl e ↦ inr (ground (arith, e))
    | inr e ↦ inl (ground (arith, e, i))
  ]),
  (λ h. elim h [ inl i ↦ ground (arith, i) | inr e ↦ ground (arith, e) ]),
)

-- Whether an object stands first among the pending objects, or the unreferenced ones.
abbrev pub Sorted : Compartment → Bool → ℕ → Candidate → Type 0
Sorted c b y k = (k.address ≡ y) × (is_root c k ≡ b)

pending_one :
    (c : Compartment) (k : Candidate) (st : GcState) (y : ℕ)
    → IsIn y (pending (init_gc_object c k st)) ↔ (IsIn y (pending st) ⊎ Sorted c true y k)
pending_one c k (gc_state u p) y = elim (Bool-cases (is_root c k)) [
  | inl e ↦
      let (f, g) = IsIn-cons k.address y p in
      rw e (
        (λ i. elim (f i) [ inl j ↦ inl j | inr q ↦ inr (q, refl) ]),
        (λ h. elim h [ inl j ↦ g (inl j) | inr (q, r) ↦ g (inr q) ]),
      )
  | inr e ↦ rw e ((λ i. inl i), (λ h. elim h [ inl j ↦ j | inr (q, r) ↦ absurd cc ]))
]

unreferenced_one :
    (c : Compartment) (k : Candidate) (st : GcState) (y : ℕ)
    → IsIn y (unreferenced (init_gc_object c k st))
      ↔ (IsIn y (unreferenced st) ⊎ Sorted c false y k)
unreferenced_one c k (gc_state u p) y = elim (Bool-cases (is_root c k)) [
  | inl e ↦ rw e ((λ i. inl i), (λ h. elim h [ inl j ↦ j | inr (q, r) ↦ absurd cc ]))
  | inr e ↦
      let (f, g) = IsIn-cons k.address y u in
      rw e (
        (λ i. elim (f i) [ inl j ↦ inl j | inr q ↦ inr (q, refl) ]),
        (λ h. elim h [ inl j ↦ g (inl j) | inr (q, r) ↦ g (inr q) ]),
      )
]

join : {A B C : Type 0} → A ↔ B → (A ⊎ C) ↔ (B ⊎ C)
join (f, g) = (
  (λ h. elim h [ inl a ↦ inl (f a) | inr c ↦ inr c ]),
  (λ h. elim h [ inl a ↦ inl (g a) | inr c ↦ inr c ]),
)

pub pending_all :
    (c : Compartment) (all : List Candidate) (st : GcState) (y : ℕ)
    → IsIn y (pending (init_gc_objects c all st))
      ↔ (IsIn y (pending st) ⊎ Any (Sorted c true y) all)
unfolding init_gc_objects
pending_all c [] st y = ((λ i. inl i), (λ h. elim h [ inl i ↦ i | inr i ↦ absurd i ]))
pending_all c (k ∷ all) st y =
    let (f, g) = pending_all c all (init_gc_object c k st) y in
    both (f, g) (both (join (pending_one c k st y)) regroup)

pub unreferenced_all :
    (c : Compartment) (all : List Candidate) (st : GcState) (y : ℕ)
    → IsIn y (unreferenced (init_gc_objects c all st))
      ↔ (IsIn y (unreferenced st) ⊎ Any (Sorted c false y) all)
unfolding init_gc_objects
unreferenced_all c [] st y = ((λ i. inl i), (λ h. elim h [ inl i ↦ i | inr i ↦ absurd i ]))
unreferenced_all c (k ∷ all) st y =
    let (f, g) = unreferenced_all c all (init_gc_object c k st) y in
    both (f, g) (both (join (unreferenced_one c k st y)) regroup)

-- Every object of the compartment is a candidate, and nothing else is.
pub placed : (c : Compartment) (y : ℕ) → IsObject c y → Any (λ k. k.address ≡ y) (candidates c)
placed c y o = (Any-candidates (λ k. k.address ≡ y) c).1 (part o)
  where
    part :
        IsObject c y
        → ((c.address ≡ y)
            ⊎ Any (λ k. k.address ≡ y) (instance_candidates c c.instances)
            ⊎ Any (λ x. x ≡ y) c.memories
            ⊎ Any (λ x. x ≡ y) c.tables
            ⊎ Any (λ x. x ≡ y) c.exception_types
            ⊎ Any (λ x. x ≡ y) c.globals
            ⊎ Any (λ k. k.address ≡ y) c.contexts)
    part (itself e) = inl e
    part (an_instance a) = inr (
        inl (
          (Any-instance_candidates (λ k. k.address ≡ y) c c.instances).1
            (Any-imp c.instances (λ e q. (y, q, refl)) a)))
    part (a_memory a) = inr (inr (inl a))
    part (a_table a) = inr (inr (inr (inl a)))
    part (an_exception_type a) = inr (inr (inr (inr (inl a))))
    part (a_global a) = inr (inr (inr (inr (inr (inl a)))))
    part (a_context a) = inr (inr (inr (inr (inr (inr a)))))

pub unplaced : (c : Compartment) (y : ℕ) → Any (λ k. k.address ≡ y) (candidates c) → IsObject c y
unplaced c y a = elim ((Any-candidates (λ k. k.address ≡ y) c).0 a) [
  | inl e ↦ itself e
  | inr (inl a) ↦ an_instance (
      Any-imp c.instances (λ e (x, q, r). q ∙ ap some r)
        ((Any-instance_candidates (λ k. k.address ≡ y) c c.instances).0 a))
  | inr (inr (inl a)) ↦ a_memory a
  | inr (inr (inr (inl a))) ↦ a_table a
  | inr (inr (inr (inr (inl a)))) ↦ an_exception_type a
  | inr (inr (inr (inr (inr (inl a))))) ↦ a_global a
  | inr (inr (inr (inr (inr (inr a))))) ↦ a_context a
]
