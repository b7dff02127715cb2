-- ===== src/Runtime/ObjectGc/Scan.antt =====
-- The loop of the collector, and what it leaves unreferenced.
use wavm.Prelude.{
  contains, ℕ, zero, suc, ◌≤◌, ◌≡◌, ◌⊎◌, ◌↔◌, refl, ap, subst, sym, ◌∙◌, inl, inr, false, List, [],
  ◌∷◌, ◌==◌, some, none, arith, Bool-cases,
}
use wavm.Runtime.ObjectGc.{
  Compartment, Reference, GcState, gc_state, references, visit_references, Scanned, finished,
  scan_object, scan_all, num_objects,
}
use wavm.Runtime.ObjectGc.Visits.{
  IsIn, unreferenced, pending, Moves, Leads, AreFound, visit_references-Moves,
}

-- That scanning one object visits a reference to the other.
pub record Refers (c : Compartment) (x y : ℕ) : Type 0 where
  pub visited : List Reference
  pub scanned : references c x ≡ some visited
  pub leads : Leads c visited y

-- What the pending objects of a state lead to, by way of its unreferenced objects.
pub data Reachable (c : Compartment) (st : GcState) : ℕ → Type 0 where
  root : {x : ℕ} → IsIn x (pending st) → Reachable c st x
  step : {x y : ℕ} → Reachable c st x → Refers c x y → IsIn y (unreferenced st) → Reachable c st y

abbrev pub Known : GcState → ℕ → Type 0
Known st x = IsIn x (unreferenced st) ⊎ IsIn x (pending st)

pub Reachable-Known : (c : Compartment) (st : GcState) (x : ℕ) → Reachable c st x → Known st x
Reachable-Known c st x (root i) = inr i
Reachable-Known c st x (step r e i) = inl i

-- That an object is of a kind that is scanned, and all its references lead somewhere.
pub record IsScannable (c : Compartment) (x : ℕ) : Type 0 where
  pub visited : List Reference
  pub scanned : references c x ≡ some visited
  pub are_found : AreFound c visited

-- What the loop keeps, from its first state on.
pub record Progress (c : Compartment) (first st : GcState) : Type 0 where
  pub reached : (y : ℕ) → IsIn y (pending st) → Reachable c first y
  pub subset : (y : ℕ) → IsIn y (unreferenced st) → IsIn y (unreferenced first)
  pub kept : (y : ℕ) → IsIn y (unreferenced first) → IsIn y (unreferenced st) ⊎ Reachable c first y
  pub closed : (x y : ℕ) → Known first x → Refers c x y → IsIn y (unreferenced st) → Known st x
  pub roots_out : (y : ℕ) → IsIn y (pending first) → contains y (unreferenced st) ≡ false

pub Progress-first :
    (c : Compartment) (st : GcState)
    → ((y : ℕ) → IsIn y (pending st) → contains y (unreferenced st) ≡ false)
    → Progress c st st
Progress-first c st h = record {
  reached = λ y i. root i;
  subset = λ y i. i;
  kept = λ y i. inl i;
  closed = λ x y k r i. k;
  roots_out = h;
}

top-IsIn : (x : ℕ) (p : List ℕ) → IsIn x (x ∷ p)
unfolding contains
top-IsIn x p = ground arith

below-IsIn : (x y : ℕ) (p : List ℕ) → IsIn y p → IsIn y (x ∷ p)
unfolding contains
below-IsIn x y p i = ground (arith, i)

IsIn-cases : (x y : ℕ) (p : List ℕ) → IsIn y (x ∷ p) → (x ≡ y) ⊎ IsIn y p
unfolding contains
IsIn-cases x y p i = elim (Bool-cases (y == x)) [
  | inl e ↦ inl (ground (arith, e))
  | inr e ↦ inr (ground (arith, e, i))
]

nil-IsIn : (y : ℕ) → IsIn y [] → ⊥
unfolding contains
nil-IsIn y i = cc

Leads-same :
    (c : Compartment) (x x' y : ℕ) (rs : List Reference)
    → x ≡ x'
    → references c x ≡ some rs
    → Refers c x' y
    → Leads c rs y
Leads-same c x x' y rs e q r =
    let h : some r.visited ≡ some rs = sym r.scanned ∙ ap (references c) (sym e) ∙ q in
    let k : r.visited ≡ rs = cc in subst (λ l. Leads c l y) k r.leads

-- One turn: the top of the stack is scanned.
turn :
    (c : Compartment) (first : GcState) (x : ℕ) (u p : List ℕ) (rs : List Reference)
    (later : GcState)
    → Progress c first (gc_state u (x ∷ p))
    → references c x ≡ some rs
    → Moves (Leads c rs) (gc_state u p) later
    → Progress c first later
turn c first x u p rs later g e m = record {
  reached = reached;
  subset = λ y i. g.subset y (m.shrinks y i);
  kept = λ y i. elim (g.kept y i) [
    | inl j ↦ elim (m.moved y j) [ inl k ↦ inl k | inr k ↦ inr (reached y k) ]
    | inr r ↦ inr r
  ];
  closed = λ x' y k r i. elim (g.closed x' y k r (m.shrinks y i)) [
    | inl j ↦ m.moved x' j
    | inr j ↦ elim (IsIn-cases x x' p j) [
      | inl q ↦ absurd (ground (arith, i, m.gone y (Leads-same c x x' y rs q e r)))
      | inr k ↦ inr (m.keeps x' k)
    ]
  ];
  roots_out = λ y i. elim (Bool-cases (contains y (unreferenced later))) [
    | inl j ↦ absurd (ground (arith, g.roots_out y i, m.shrinks y j))
    | inr j ↦ j
  ];
}
  where
    reached : (y : ℕ) → IsIn y (pending later) → Reachable c first y
    reached y i = elim (m.came y i) [
      | inl j ↦ g.reached y (below-IsIn x y p j)
      | inr (l, j) ↦
          step (g.reached x (top-IsIn x p)) (record { visited = rs; scanned = e; leads = l })
            (g.subset y j)
    ]

then_scan :
    (c : Compartment) (x fuel : ℕ) (st later : GcState) (rs : List Reference)
    → references c x ≡ some rs
    → visit_references c rs st ≡ some later
    → elim (scan_object c x st) [ some next ↦ scan_all c fuel next | none ↦ Scanned.failed ]
      ≡ scan_all c fuel later
then_scan c x fuel st later rs e h =
    ap (λ v. elim v [ some next ↦ scan_all c fuel next | none ↦ Scanned.failed ])
      (ap (λ v. elim v [ some rs ↦ visit_references c rs st | none ↦ none ]) e ∙ h)

-- If every known object can be scanned, then as much fuel as there are objects is enough: the loop
-- ends with an empty stack, and what was taken off the set of unreferenced objects is reachable, while
-- no object that was scanned refers to one that is left in it.
pub scan_all-Progress :
    (c : Compartment) (first : GcState) (fuel : ℕ) (st : GcState)
    → ((x : ℕ) → Known first x → IsScannable c x)
    → num_objects st ≤ fuel
    → Progress c first st
    → (rest : List ℕ) × (scan_all c fuel st ≡ finished (gc_state rest []))
      × Progress c first (gc_state rest [])
unfolding scan_all
scan_all-Progress c first fuel (gc_state u []) s f g = (u, refl, g)
scan_all-Progress c first zero (gc_state u (x ∷ p)) s f g = absurd (omega (arith, f))
scan_all-Progress c first (suc fuel) (gc_state u (x ∷ p)) s f g =
    let o = s x (Reachable-Known c first x (g.reached x (top-IsIn x p))) in
    let (later, e, m) = visit_references-Moves c o.visited (gc_state u p) o.are_found in
    let (rest, q, h) =
      scan_all-Progress c first fuel later s (omega (arith, f, m.size))
        (turn c first x u p o.visited later g o.scanned m) in
    (rest, then_scan c x fuel (gc_state u p) later o.visited o.scanned e ∙ q, h)

-- When the stack is empty, the unreferenced objects are those that no path leads to.
pub Progress-last :
    (c : Compartment) (first : GcState) (rest : List ℕ)
    → Progress c first (gc_state rest [])
    → (y : ℕ) → IsIn y rest ↔ (IsIn y (unreferenced first) × (¬ Reachable c first y))
Progress-last c first rest g y =
    (λ i. (g.subset y i, λ r. ground (arith, i, out y r)), λ (i, n). back i n)
  where
    out : (y : ℕ) → Reachable c first y → contains y rest ≡ false
    out y (root i) = g.roots_out y i
    out y (step {x} r e i) = elim (Bool-cases (contains y rest)) [
      | inl j ↦ elim (g.closed x y (Reachable-Known c first x r) e j) [
        | inl k ↦ absurd (ground (arith, k, out x r))
        | inr k ↦ absurd (nil-IsIn x k)
      ]
      | inr j ↦ j
    ]

    back : IsIn y (unreferenced first) → (¬ Reachable c first y) → IsIn y rest
    back i n = elim (g.kept y i) [ inl j ↦ j | inr r ↦ absurd (n r) ]
