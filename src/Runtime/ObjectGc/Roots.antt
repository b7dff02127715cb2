-- ===== src/Runtime/ObjectGc/Roots.antt =====
-- The roots of a collection: the first state of the collector of Lib/Runtime/ObjectGC.cpp.
use wavm.Prelude.{
  ℕ, ◌≡◌, ◌⊎◌, ◌↔◌, refl, ap, sym, ◌∙◌, inl, inr, Bool, true, false, ◌&&◌, ◌||◌, List, [], ◌∷◌,
  Option, some, none, ltb, ◌==◌, arith, Bool-cases, contains,
}
use wavm.Runtime.ObjectGc.{
  Function, Contents, GcObject, InstanceEntry, Compartment, gc_state, has_root_function,
  instance_has_root, has_root_references, Candidate, candidate, is_root, candidates, initial_state,
}
use wavm.Runtime.ObjectGc.Visits.{IsIn, pending}
use wavm.Runtime.ObjectGc.Scan.{Known}
use wavm.Runtime.ObjectGc.Pointers.{Any, Any-imp, IsObject, IsHeld, IsRoot, held, runs}
use wavm.Runtime.ObjectGc.Candidates.{
  OfEntry, Sorted, Any-instance_candidates, Any-candidates, pending_all, unreferenced_all, placed,
  unplaced,
}

Any-out : {A Q : Type 0} {P : A → Type 0} (list : List A) → ((a : A) → P a → Q) → Any P list → Q
Any-out [] h p = absurd p
Any-out (a ∷ list) h (inl p) = h a p
Any-out (a ∷ list) h (inr p) = Any-out list h p

or-cases : (a b : Bool) → (a || b) ≡ true → (a ≡ true) ⊎ (b ≡ true)
or-cases true b e = inl refl
or-cases false b e = inr e

or_right : (a b : Bool) → b ≡ true → (a || b) ≡ true
or_right true b e = refl
or_right false b e = e

has_root_function-Any :
    (id : ℕ) (functions : List (Option Function))
    → (has_root_function id functions ≡ true) ↔ Any (IsHeld id) functions
unfolding has_root_function
has_root_function-Any id [] = ((λ e. absurd cc), (λ h. absurd h))
has_root_function-Any id (none ∷ functions) =
    let (f, g) = has_root_function-Any id functions in
    ((λ e. inr (f e)), (λ h. elim h [ inl p ↦ absurd p | inr p ↦ g p ]))
has_root_function-Any id (some x ∷ functions) =
    let (f, g) = has_root_function-Any id functions in
    let own = ltb 0 x.num_root_references && x.instance_id == id in
    (
      (λ e. elim (or-cases own (has_root_function id functions) e) [
        | inl p ↦ inl (ground (arith, p), ground (arith, p))
        | inr p ↦ inr (f p)
      ]),
      (λ h. elim h [
        | inl (p, q) ↦ ground (arith, p, q)
        | inr p ↦ or_right own (has_root_function id functions) (g p)
      ]),
    )

-- A stored object with root references, or an instance with a function of its own that has some.
stored-IsRoot :
    (c : Compartment) (y : ℕ) → IsObject c y → has_root_references (c.store y) ≡ true → IsRoot c y
stored-IsRoot c y h e = go (c.store y) refl e
  where
    go : (q : Option GcObject) → c.store y ≡ q → has_root_references q ≡ true → IsRoot c y
    go none p e = absurd cc
    go (some o) p e = held o h p (ground (arith, e))

instance-IsRoot :
    (c : Compartment) (y : ℕ)
    → Any (λ e. e.instance_ ≡ some y) c.instances
    → instance_has_root (c.store y) ≡ true
    → IsRoot c y
instance-IsRoot c y h e = go (c.store y) refl e
  where
    of_contents :
        (o : GcObject) (k : Contents)
        → c.store y ≡ some o
        → o.contents ≡ k
        → elim k [ Contents.instance_ i ↦ has_root_function i.id i.functions | _ ↦ false ] ≡ true
        → IsRoot c y
    of_contents o (Contents.instance_ i) p q e =
        runs o i h p q ((has_root_function-Any i.id i.functions).0 e)
    of_contents o (Contents.table elements) p q e = absurd cc
    of_contents o (Contents.global g) p q e = absurd cc
    of_contents o Contents.compartment p q e = absurd cc
    of_contents o Contents.memory p q e = absurd cc
    of_contents o Contents.exception_type p q e = absurd cc
    of_contents o Contents.context p q e = absurd cc
    of_contents o Contents.function p q e = absurd cc
    of_contents o Contents.foreign p q e = absurd cc
    of_contents o Contents.invalid p q e = absurd cc

    go : (q : Option GcObject) → c.store y ≡ q → instance_has_root q ≡ true → IsRoot c y
    go none p e = absurd cc
    go (some o) p e = of_contents o o.contents p refl e

-- Why the first candidate at an address is a root.
abbrev Why : Compartment → ℕ → Type 0
Why c y =
    (has_root_references (c.store y) ≡ true)
    ⊎ (Any (λ e. e.instance_ ≡ some y) c.instances × (instance_has_root (c.store y) ≡ true))

plain-Why : (c : Compartment) (y x : ℕ) → Sorted c true y (candidate x) → Why c y
plain-Why c y x (e, r) = inl (ap (λ z. has_root_references (c.store z)) (sym e) ∙ r)

entry-Why :
    (c : Compartment) (y : ℕ)
    → Any (λ e. e.instance_ ≡ some y) c.instances
    → (e : InstanceEntry) → OfEntry (Sorted c true y) c e
    → Why c y
entry-Why c y h e (x, q, (p, r)) =
    elim (or-cases (instance_has_root (c.store x)) (has_root_references (c.store x)) r) [
      | inl k ↦ inr (h, ap (λ z. instance_has_root (c.store z)) (sym p) ∙ k)
      | inr k ↦ inl (ap (λ z. has_root_references (c.store z)) (sym p) ∙ k)
    ]

Sorted-Why : (c : Compartment) (y : ℕ) → Any (Sorted c true y) (candidates c) → Why c y
Sorted-Why c y a = elim ((Any-candidates (Sorted c true y) c).0 a) [
  | inl e ↦ plain-Why c y c.address e
  | inr (inl a) ↦
      let b = (Any-instance_candidates (Sorted c true y) c c.instances).0 a in
      Any-out c.instances
        (entry-Why c y (Any-imp c.instances (λ e (x, q, (p, r)). q ∙ ap some p) b)) b
  | inr (inr (inl a)) ↦ Any-out c.memories (plain-Why c y) a
  | inr (inr (inr (inl a))) ↦ Any-out c.tables (plain-Why c y) a
  | inr (inr (inr (inr (inl a)))) ↦ Any-out c.exception_types (plain-Why c y) a
  | inr (inr (inr (inr (inr (inl a))))) ↦ Any-out c.globals (plain-Why c y) a
  | inr (inr (inr (inr (inr (inr a))))) ↦ Any-out c.contexts (λ k. plain-Why c y k.address) a
]

nil-IsIn : (y : ℕ) → IsIn y [] → ⊥
unfolding contains
nil-IsIn y i = cc

pub pending-IsRoot : (c : Compartment) (y : ℕ) → IsIn y (pending (initial_state c)) → IsRoot c y
pending-IsRoot c y i = elim ((pending_all c (candidates c) (gc_state [] []) y).0 i) [
  | inl j ↦ absurd (nil-IsIn y j)
  | inr a ↦ elim (Sorted-Why c y a) [
    | inl e ↦ stored-IsRoot c y (unplaced c y (Any-imp (candidates c) (λ k (p, q). p) a)) e
    | inr (h, e) ↦ instance-IsRoot c y h e
  ]
]

pub IsRoot-pending : (c : Compartment) (y : ℕ) → IsRoot c y → IsIn y (pending (initial_state c))
IsRoot-pending c y (held o h p l) = (pending_all c (candidates c) (gc_state [] []) y).1 (
    inr (
      Any-imp (candidates c)
        (λ k q. (
          q,
          or_right k.force_root (has_root_references (c.store k.address)) (
              ap (λ z. has_root_references (c.store z)) q
              ∙ ap has_root_references p
              ∙ ground (arith, l)),
        ))
        (placed c y h)))
IsRoot-pending c y (runs o i h p k a) =
    let root : instance_has_root (c.store y) ≡ true =
      ap instance_has_root p
      ∙ ap (λ k. elim k [ Contents.instance_ i ↦ has_root_function i.id i.functions | _ ↦ false ]) k
      ∙ (has_root_function-Any i.id i.functions).1 a in
    (pending_all c (candidates c) (gc_state [] []) y).1 (
      inr (
        (Any-candidates (Sorted c true y) c).1 (
          inr (
            inl (
              (Any-instance_candidates (Sorted c true y) c c.instances).1 (
                Any-imp c.instances
                  (λ e q. (y, q, (refl, ap (λ b. b || has_root_references (c.store y)) root)))
                  h))))))

-- The collector knows the objects of the compartment, and nothing else.
pub Known-IsObject : (c : Compartment) (y : ℕ) → Known (initial_state c) y → IsObject c y
Known-IsObject c y (inl i) = elim ((unreferenced_all c (candidates c) (gc_state [] []) y).0 i) [
  | inl j ↦ absurd (nil-IsIn y j)
  | inr a ↦ unplaced c y (Any-imp (candidates c) (λ k (p, q). p) a)
]
Known-IsObject c y (inr i) = elim ((pending_all c (candidates c) (gc_state [] []) y).0 i) [
  | inl j ↦ absurd (nil-IsIn y j)
  | inr a ↦ unplaced c y (Any-imp (candidates c) (λ k (p, q). p) a)
]

either_way :
    (c : Compartment) (y : ℕ) (all : List Candidate)
    → Any (λ k. k.address ≡ y) all
    → Any (Sorted c false y) all ⊎ Any (Sorted c true y) all
either_way c y [] a = absurd a
either_way c y (k ∷ all) (inl e) = elim (Bool-cases (is_root c k)) [
  | inl r ↦ inr (inl (e, r))
  | inr r ↦ inl (inl (e, r))
]
either_way c y (k ∷ all) (inr a) = elim (either_way c y all a) [
  | inl b ↦ inl (inr b)
  | inr b ↦ inr (inr b)
]

pub IsObject-Known : (c : Compartment) (y : ℕ) → IsObject c y → Known (initial_state c) y
IsObject-Known c y h = elim (either_way c y (candidates c) (placed c y h)) [
  | inl a ↦ inl ((unreferenced_all c (candidates c) (gc_state [] []) y).1 (inr a))
  | inr a ↦ inr ((pending_all c (candidates c) (gc_state [] []) y).1 (inr a))
]
