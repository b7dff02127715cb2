-- ===== src/Ir/Types/Subtyping.antt =====
-- Subtyping of operand, function, table, memory and global types.
use wavm.Prelude.{
  ℕ, suc, ◌≤◌, ◌≡◌, refl, ap, true, [], ◌∷◌, arith, length, Bool-cases, inl, inr, ◌↔◌,
}
use wavm.Ir.Types.{
  ValueType, value_type_eq, is_subtype, TypeTuple, tuple_eq, elements_subtype, is_tuple_subtype,
  FunctionType, convention_code, function_type_eq, is_function_subtype, SizeConstraints,
  is_size_subset, GlobalType, is_global_subtype,
}

pub value_type_eq→≡ : (a b : ValueType) → value_type_eq a b ≡ true → a ≡ b
value_type_eq→≡ a b h = ground arith

pub is_subtype_refl : (a : ValueType) → is_subtype a a ≡ true
unfolding is_subtype
is_subtype_refl a = ground arith

-- The order of the value types is transitive.
pub is_subtype_trans :
    (a b c : ValueType) → is_subtype a b ≡ true → is_subtype b c ≡ true → is_subtype a c ≡ true
unfolding is_subtype
is_subtype_trans a b c h k = ground arith

pub is_subtype_antisymm : (a b : ValueType) → is_subtype a b ≡ true → is_subtype b a ≡ true → a ≡ b
unfolding is_subtype
is_subtype_antisymm a b h k = ground arith

tuple_eq→≡ : (s t : TypeTuple) → tuple_eq s t ≡ true → s ≡ t
unfolding tuple_eq
tuple_eq→≡ [] [] h = refl
tuple_eq→≡ [] (b ∷ t) h = cc
tuple_eq→≡ (a ∷ s) [] h = cc
tuple_eq→≡ (a ∷ s) (b ∷ t) h = ground (arith, value_type_eq→≡ a b, tuple_eq→≡ s t)

pub tuple_eq_refl : (s : TypeTuple) → tuple_eq s s ≡ true
unfolding tuple_eq
tuple_eq_refl [] = refl
tuple_eq_refl (a ∷ s) = ground (arith, tuple_eq_refl s)

pub tuple_eq_iff : (s t : TypeTuple) → (tuple_eq s t ≡ true) ↔ (s ≡ t)
tuple_eq_iff s t = (tuple_eq→≡ s t, λ e. rw e (tuple_eq_refl t))

-- Element by element, as a proposition.
abbrev pub Below : TypeTuple → TypeTuple → Type 0
Below [] [] = Unit {0}
Below [] (b ∷ t) = ⊥
Below (a ∷ s) [] = ⊥
Below (a ∷ s) (b ∷ t) = (is_subtype a b ≡ true) × Below s t

Below_refl : (s : TypeTuple) → Below s s
Below_refl [] = tt
Below_refl (a ∷ s) = (is_subtype_refl a, Below_refl s)

Below_trans : (s t u : TypeTuple) → Below s t → Below t u → Below s u
Below_trans [] [] u h k = k
Below_trans [] (b ∷ t) u h k = absurd h
Below_trans (a ∷ s) [] u h k = absurd h
Below_trans (a ∷ s) (b ∷ t) [] h k = absurd k
Below_trans (a ∷ s) (b ∷ t) (c ∷ u) h k =
    (is_subtype_trans a b c h.0 k.0, Below_trans s t u h.1 k.1)

elements_subtype→Below :
    (s t : TypeTuple) → length s ≡ length t → elements_subtype s t ≡ true → Below s t
unfolding elements_subtype
elements_subtype→Below [] [] e h = tt
elements_subtype→Below [] (b ∷ t) e h = absurd (omega arith)
elements_subtype→Below (a ∷ s) [] e h = absurd (omega arith)
elements_subtype→Below (a ∷ s) (b ∷ t) e h =
    (ground arith, elements_subtype→Below s t (omega arith) (ground arith))

Below→elements_subtype :
    (s t : TypeTuple) → Below s t → (length s ≡ length t) × (elements_subtype s t ≡ true)
unfolding elements_subtype
Below→elements_subtype [] [] h = (refl, refl)
Below→elements_subtype [] (b ∷ t) h = absurd h
Below→elements_subtype (a ∷ s) [] h = absurd h
Below→elements_subtype (a ∷ s) (b ∷ t) h =
    let (e, k) = Below→elements_subtype s t h.1 in (ap suc e, ground arith)

-- `isSubtype` on tuples answers true exactly for tuples of one size whose elements are subtypes:
-- its short cut for equal tuples changes no answer.
pub is_tuple_subtype_iff : (s t : TypeTuple) → (is_tuple_subtype s t ≡ true) ↔ Below s t
unfolding is_tuple_subtype
is_tuple_subtype_iff s t = (forth, back)
  where
    forth : is_tuple_subtype s t ≡ true → Below s t
    forth h = elim (Bool-cases (tuple_eq s t)) [
      | inl e ↦ rw (tuple_eq→≡ s t e) (Below_refl t)
      | inr n ↦ elements_subtype→Below s t (ground arith) (ground arith)
    ]

    back : Below s t → is_tuple_subtype s t ≡ true
    back h = let (e, k) = Below→elements_subtype s t h in ground arith

-- What a function subtype promises: it takes the supertype's arguments and returns its results.
pub record FunctionBelow (s t : FunctionType) : Type 0 where
  pub takes : Below t.params s.params
  pub returns : Below s.results t.results
  pub convention : convention_code t.calling_convention ≡ convention_code s.calling_convention

function_type_eq→FunctionBelow :
    (s t : FunctionType) → function_type_eq s t ≡ true → FunctionBelow s t
unfolding function_type_eq
function_type_eq→FunctionBelow s t h =
    let results = tuple_eq→≡ s.results t.results (ground arith) in
    let params = tuple_eq→≡ s.params t.params (ground arith) in
    record {
      takes = rw params (Below_refl t.params);
      returns = rw results (Below_refl t.results);
      convention = ground arith;
    }

-- `isSubtype` on function types: parameters vary against the order, results along it, and the
-- calling conventions are the same.
pub is_function_subtype_iff :
    (s t : FunctionType) → (is_function_subtype s t ≡ true) ↔ FunctionBelow s t
unfolding is_function_subtype
is_function_subtype_iff s t = (forth, back)
  where
    forth : is_function_subtype s t ≡ true → FunctionBelow s t
    forth h = elim (Bool-cases (function_type_eq s t)) [
      | inl e ↦ function_type_eq→FunctionBelow s t e
      | inr n ↦ record {
        takes = (is_tuple_subtype_iff t.params s.params).0 (ground arith);
        returns = (is_tuple_subtype_iff s.results t.results).0 (ground arith);
        convention = ground arith;
      }
    ]

    back : FunctionBelow s t → is_function_subtype s t ≡ true
    back h =
        let params = (is_tuple_subtype_iff t.params s.params).1 h.takes in
        let results = (is_tuple_subtype_iff s.results t.results).1 h.returns in
        let convention = h.convention in ground arith

-- The order of the function types is transitive.
pub is_function_subtype_trans :
    (s t u : FunctionType)
    → is_function_subtype s t ≡ true
    → is_function_subtype t u ≡ true
    → is_function_subtype s u ≡ true
is_function_subtype_trans s t u h k =
    let a = (is_function_subtype_iff s t).0 h in
    let b = (is_function_subtype_iff t u).0 k in
    (is_function_subtype_iff s u).1 (record {
      takes = Below_trans u.params t.params s.params b.takes a.takes;
      returns = Below_trans s.results t.results u.results a.returns b.returns;
      convention = omega (arith, a.convention, b.convention);
    })

-- `n` elements are within the bounds; `UINT64_MAX` as the maximum bounds nothing more, since
-- every size is a `U64`.
abbrev pub Admits : SizeConstraints → ℕ → Type 0
Admits c n = (c.min ≤ n) × (n ≤ c.max)

-- Whatever size a subtype admits, its supertype admits, and a subtype that admits some size is
-- found by `isSubset` whenever that holds.
pub is_size_subset_iff :
    (sub super : SizeConstraints)
    → sub.min ≤ sub.max
    → (is_size_subset sub super ≡ true) ↔ ((n : ℕ) → Admits sub n → Admits super n)
unfolding is_size_subset
is_size_subset_iff sub super inhabited = (forth, back)
  where
    forth : is_size_subset sub super ≡ true → (n : ℕ) → Admits sub n → Admits super n
    forth h n a = ground arith

    back : ((n : ℕ) → Admits sub n → Admits super n) → is_size_subset sub super ≡ true
    back f = let low = f sub.min (omega arith) in let high = f sub.max (omega arith) in ground arith

-- `isSubtype` on global types answers true exactly if the mutabilities agree and the value type is
-- a subtype of the other, and the same type if the globals are mutable.
pub is_global_subtype_iff :
    (sub super : GlobalType)
    → (is_global_subtype sub super ≡ true) ↔ (
        (sub.is_mutable ≡ super.is_mutable)
        × (is_subtype sub.value_type super.value_type ≡ true)
        × (super.is_mutable ≡ true → sub.value_type ≡ super.value_type))
unfolding is_global_subtype
is_global_subtype_iff sub super = (forth, back)
  where
    forth :
        is_global_subtype sub super ≡ true
        → (sub.is_mutable ≡ super.is_mutable)
          × (is_subtype sub.value_type super.value_type ≡ true)
          × (super.is_mutable ≡ true → sub.value_type ≡ super.value_type)
    forth h = (
      ground arith,
      ground (
        arith,
        value_type_eq→≡ super.value_type sub.value_type,
        is_subtype_refl super.value_type,
      ),
      λ m. ground (arith, value_type_eq→≡ super.value_type sub.value_type),
    )

    back :
        (sub.is_mutable ≡ super.is_mutable)
          × (is_subtype sub.value_type super.value_type ≡ true)
          × (super.is_mutable ≡ true → sub.value_type ≡ super.value_type)
        → is_global_subtype sub super ≡ true
    back (m, s, v) = elim (Bool-cases super.is_mutable) [
      | inl yes_mutable ↦ rw (m, yes_mutable, v yes_mutable) (ground arith)
      | inr immutable ↦ rw (m, immutable) (ground arith)
    ]
