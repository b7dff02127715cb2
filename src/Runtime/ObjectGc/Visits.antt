-- ===== src/Runtime/ObjectGc/Visits.antt =====
-- What visiting references does to the state of the collector.
use wavm.Prelude.{
  contains, contains-remove, length-remove_lt, ℕ, ◌≤◌, ◌≡◌, ◌≢◌, ◌⊎◌, refl, ap, sym, ◌∙◌, inl, inr,
  true, false, List, [], ◌∷◌, ◌==◌, some, none, arith, Bool-cases,
}
use wavm.Runtime.ObjectGc.{
  Compartment, Reference, Target, nothing, to, failed, GcState, gc_state, target, mark,
  visit_target, visit_references, num_objects,
}

abbrev pub IsIn : ℕ → List ℕ → Type 0
IsIn x xs = contains x xs ≡ true

abbrev pub unreferenced : GcState → List ℕ
unreferenced (gc_state u p) = u

abbrev pub pending : GcState → List ℕ
pending (gc_state u p) = p

-- From `st` to `later`, objects that `T` holds of are moved from the set to the stack, each at most
-- once.
pub record Moves (T : ℕ → Type 0) (st later : GcState) : Type 0 where
  pub shrinks : (y : ℕ) → IsIn y (unreferenced later) → IsIn y (unreferenced st)
  pub keeps : (y : ℕ) → IsIn y (pending st) → IsIn y (pending later)
  pub moved :
      (y : ℕ) → IsIn y (unreferenced st) → IsIn y (unreferenced later) ⊎ IsIn y (pending later)
  pub came :
      (y : ℕ) → IsIn y (pending later) → IsIn y (pending st) ⊎ (T y × IsIn y (unreferenced st))
  pub gone : (y : ℕ) → T y → contains y (unreferenced later) ≡ false
  pub size : num_objects later ≤ num_objects st

pub Moves-none :
    {T : ℕ → Type 0} (st : GcState)
    → ((y : ℕ) → T y → contains y (unreferenced st) ≡ false)
    → Moves T st st
Moves-none st h = record {
  shrinks = λ y i. i;
  keeps = λ y i. i;
  moved = λ y i. inl i;
  came = λ y i. inl i;
  gone = h;
  size = omega arith;
}

pub Moves-then :
    {T U : ℕ → Type 0} {a b c : GcState} → Moves T a b → Moves U b c → Moves (λ y. T y ⊎ U y) a c
Moves-then {T} {U} {a} {b} {c} m n = record {
  shrinks = λ y i. m.shrinks y (n.shrinks y i);
  keeps = λ y i. n.keeps y (m.keeps y i);
  moved = λ y i. elim (m.moved y i) [ inl j ↦ n.moved y j | inr j ↦ inr (n.keeps y j) ];
  came = λ y i. elim (n.came y i) [
    | inl j ↦ elim (m.came y j) [ inl k ↦ inl k | inr (t, k) ↦ inr (inl t, k) ]
    | inr (u, j) ↦ inr (inr u, m.shrinks y j)
  ];
  gone = λ y t. elim t [
    | inl t ↦ elim (Bool-cases (contains y (unreferenced c))) [
      | inl i ↦ absurd (ground (arith, m.gone y t, n.shrinks y i))
      | inr i ↦ i
    ]
    | inr u ↦ n.gone y u
  ];
  size = omega (arith, m.size, n.size);
}

mark-Moves : (x : ℕ) (st : GcState) → Moves (λ y. x ≡ y) st (mark x st)
unfolding contains
mark-Moves x (gc_state u p) = elim (Bool-cases (contains x u)) [
  | inl i ↦ rw i (record {
    shrinks = λ y j. ground (arith, j, contains-remove y x u);
    keeps = λ y j. ground (arith, j);
    moved = λ y j. elim (Bool-cases (x == y)) [
      | inl e ↦ inr (ground (arith, e))
      | inr e ↦ inl (ground (arith, j, e, contains-remove y x u))
    ];
    came = λ y j. elim (Bool-cases (y == x)) [
      | inl e ↦ let q : x ≡ y = ground (arith, e) in inr (q, ap (λ z. contains z u) (sym q) ∙ i)
      | inr e ↦ inl (ground (arith, j, e))
    ];
    gone = λ y e. ground (arith, e, contains-remove y x u);
    size = omega (arith, length-remove_lt x u i);
  })
  | inr i ↦ rw i (Moves-none (gc_state u p) (λ y e. ap (λ z. contains z u) (sym e) ∙ i))
]

-- That one of the references leads to the object.
abbrev pub Leads : Compartment → List Reference → ℕ → Type 0
Leads c [] y = ⊥
Leads c (r ∷ rs) y = (target c r ≡ to y) ⊎ Leads c rs y

-- That no assertion fails on the references.
abbrev pub AreFound : Compartment → List Reference → Type 0
AreFound c [] = Unit
AreFound c (r ∷ rs) = (target c r ≢ failed) × AreFound c rs

visit_target-Moves :
    (t : Target) (st : GcState)
    → t ≢ failed
    → (later : GcState) × (visit_target t st ≡ some later) × Moves (λ y. t ≡ to y) st later
visit_target-Moves nothing st h = (st, refl, Moves-none st (λ y e. absurd cc))
visit_target-Moves (to x) st h =
    let m = mark-Moves x st in
    (
      mark x st,
      refl,
      record {
        shrinks = m.shrinks;
        keeps = m.keeps;
        moved = m.moved;
        came = λ y i. elim (m.came y i) [ inl j ↦ inl j | inr (e, j) ↦ inr (ap to e, j) ];
        gone = λ y e. m.gone y cc;
        size = m.size;
      },
    )
visit_target-Moves failed st h = absurd (h refl)

-- Visiting references of which none fails an assertion moves what they lead to, and nothing else.
pub visit_references-Moves :
    (c : Compartment) (rs : List Reference) (st : GcState)
    → AreFound c rs
    → (later : GcState) × (visit_references c rs st ≡ some later) × Moves (Leads c rs) st later
unfolding visit_references
visit_references-Moves c [] st h = (st, refl, Moves-none st (λ y e. absurd e))
visit_references-Moves c (r ∷ rs) st (h, g) =
    let (next, e, m) = visit_target-Moves (target c r) st h in
    let (later, f, n) = visit_references-Moves c rs next g in
    (
      later,
      ap (λ v. elim v [ some x ↦ visit_references c rs x | none ↦ none ]) e ∙ f,
      Moves-then m n,
    )
