-- ===== src/Runtime/ObjectGc/Separate.antt =====
-- Where the objects stand in the first state of the collector of Lib/Runtime/ObjectGC.cpp.
use wavm.Prelude.{
  contains, ℕ, ◌≡◌, refl, ap, sym, ◌∙◌, inl, inr, false, List, [], ◌∷◌, ◌==◌, map, arith,
  Bool-cases,
}
use wavm.Runtime.ObjectGc.{
  Compartment, GcState, gc_state, Candidate, is_root, init_gc_object, init_gc_objects,
}
use wavm.Runtime.ObjectGc.Visits.{IsIn, unreferenced, pending}

abbrev pub addresses : List Candidate → List ℕ
addresses = map (λ x. x.address)

-- Each address once.
abbrev pub AreDistinct : List ℕ → Type 0
AreDistinct [] = Unit
AreDistinct (x ∷ xs) = (contains x xs ≡ false) × AreDistinct xs

-- No object is both unreferenced and pending, and none is among those to come.
pub record Separate (st : GcState) (others : List ℕ) : Type 0 where
  pub apart : (y : ℕ) → IsIn y (pending st) → contains y (unreferenced st) ≡ false
  pub new_unreferenced : (y : ℕ) → IsIn y others → contains y (unreferenced st) ≡ false
  pub new_pending : (y : ℕ) → IsIn y others → contains y (pending st) ≡ false

added :
    (x : ℕ) (others u : List ℕ)
    → contains x others ≡ false
    → ((y : ℕ) → IsIn y (x ∷ others) → contains y u ≡ false)
    → (y : ℕ) → IsIn y others
    → contains y (x ∷ u) ≡ false
unfolding contains
added x others u n h y i = elim (Bool-cases (y == x)) [
  | inl e ↦
      let q : y ≡ x = ground (arith, e) in
      absurd (ground (arith, n, ap (λ z. contains z others) (sym q) ∙ i))
  | inr e ↦ ground (arith, e, h y (ground (arith, i)))
]

kept :
    (x : ℕ) (others u : List ℕ)
    → ((y : ℕ) → IsIn y (x ∷ others) → contains y u ≡ false)
    → (y : ℕ) → IsIn y others
    → contains y u ≡ false
unfolding contains
kept x others u h y i = h y (ground (arith, i))

first_out :
    (x : ℕ) (others u : List ℕ)
    → ((y : ℕ) → IsIn y (x ∷ others) → contains y u ≡ false)
    → contains x u ≡ false
unfolding contains
first_out x others u h = h x (ground arith)

apart_push :
    (x y : ℕ) (p u : List ℕ)
    → contains x u ≡ false
    → (IsIn y p → contains y u ≡ false)
    → IsIn y (x ∷ p)
    → contains y u ≡ false
unfolding contains
apart_push x y p u n h i = elim (Bool-cases (y == x)) [
  | inl e ↦ let q : y ≡ x = ground (arith, e) in ap (λ z. contains z u) q ∙ n
  | inr e ↦ h (ground (arith, e, i))
]

apart_add :
    (x y : ℕ) (p u : List ℕ)
    → contains x p ≡ false
    → (IsIn y p → contains y u ≡ false)
    → IsIn y p
    → contains y (x ∷ u) ≡ false
unfolding contains
apart_add x y p u n h i = elim (Bool-cases (y == x)) [
  | inl e ↦
      let q : y ≡ x = ground (arith, e) in
      absurd (ground (arith, n, ap (λ z. contains z p) (sym q) ∙ i))
  | inr e ↦ ground (arith, e, h i)
]

init_object-Separate :
    (c : Compartment) (x : Candidate) (st : GcState) (others : List ℕ)
    → contains x.address others ≡ false
    → Separate st (x.address ∷ others)
    → Separate (init_gc_object c x st) others
init_object-Separate c x (gc_state u p) others n s = elim (Bool-cases (is_root c x)) [
  | inl r ↦ rw r (record {
    apart = λ y i.
        apart_push x.address y p u (first_out x.address others u s.new_unreferenced) (s.apart y) i;
    new_unreferenced = kept x.address others u s.new_unreferenced;
    new_pending = added x.address others p n s.new_pending;
  })
  | inr r ↦ rw r (record {
    apart =
        λ y i. apart_add x.address y p u (first_out x.address others p s.new_pending) (s.apart y) i;
    new_unreferenced = added x.address others u n s.new_unreferenced;
    new_pending = kept x.address others p s.new_pending;
  })
]

pub init_objects-Separate :
    (c : Compartment) (all : List Candidate) (st : GcState)
    → AreDistinct (addresses all)
    → Separate st (addresses all)
    → (y : ℕ) → IsIn y (pending (init_gc_objects c all st))
    → contains y (unreferenced (init_gc_objects c all st)) ≡ false
unfolding init_gc_objects
init_objects-Separate c [] st d s = s.apart
init_objects-Separate c (x ∷ others) st d s =
    init_objects-Separate c others (init_gc_object c x st) d.1
      (init_object-Separate c x st (addresses others) d.0 s)

pub empty-Separate : (others : List ℕ) → Separate (gc_state [] []) others
unfolding contains
empty-Separate others = record {
  apart = λ y i. refl;
  new_unreferenced = λ y i. refl;
  new_pending = λ y i. refl;
}
