-- ===== src/Inline/IndexMap/Allocation.antt =====
-- Which index `add` allocates.
use wavm.Prelude.{
  ℕ, zero, suc, ◌+◌, ◌-◌, ◌%◌, ◌^◌, ◌≤◌, ◌<◌, ◌≡◌, ◌≢◌, ◌⊎◌, refl, ap, sym, subst, ◌∙◌, inl, inr,
  true, false, length, ltb, leb, some, none, if◌then◌else◌, missing, length-map, arith, Bool-cases,
}
use wavm.Inline.IndexMap.{
  IndexMap, indices, is_allocated, in_range, next_index, probe, num_indices, with_entry, Added,
  added, out_of_fuel, add_at, add, get_entry, get,
}

-- The range is one of indices below the greatest of the type, and the index that was allocated last
-- is in it, or the one before its first.
pub record IsIndexMap {E : Type 0} (m : IndexMap E) : Type 0 where
  pub range : m.min_index ≤ m.max_index
  pub below_max : m.max_index + 1 < 2 ^ 64
  pub last :
      ((m.min_index ≤ m.last_index) × (m.last_index ≤ m.max_index))
      ⊎ (m.last_index ≡ (m.min_index + (2 ^ 64 - 1)) % 2 ^ 64)

-- How many steps lead from one index to another.
abbrev distance : ℕ → ℕ → ℕ → ℕ
distance n j g = if leb j g then g - j else g + n - j

module _ {E : Type 0} (m : IndexMap E) (v : IsIndexMap m) where
  abbrev Ranges : ℕ → Type 0
  Ranges i = (m.min_index ≤ i) × (i ≤ m.max_index)

  next_in : (i : ℕ) → Ranges i → Ranges (next_index m i)
  next_in i (a, b) =
      (ground (arith, a, b, v.range, v.below_max), ground (arith, a, b, v.range, v.below_max))

  first_in : Ranges (next_index m m.last_index)
  first_in = elim v.last [
    | inl h ↦ next_in m.last_index h
    | inr e ↦
        subst (λ i. Ranges (next_index m i)) (sym e)
          (ground (arith, v.range, v.below_max), ground (arith, v.range, v.below_max))
  ]

  nearer :
      (j g : ℕ)
      → Ranges j
      → Ranges g
      → j ≢ g
      → distance (num_indices m) (next_index m j) g + 1 ≤ distance (num_indices m) j g
  nearer j g (a, b) (c, d) n = ground (arith, a, b, c, d, n, v.below_max)

  none_left : (j g : ℕ) → Ranges j → Ranges g → distance (num_indices m) j g ≤ 0 → j ≡ g
  none_left j g (a, b) (c, d) h = ground (arith, a, b, c, d, h)

  near_enough :
      (j g : ℕ) → Ranges j → Ranges g → distance (num_indices m) j g ≤ m.max_index - m.min_index
  near_enough j g (a, b) (c, d) = ground (arith, a, b, c, d)

  probe_finds :
      (fuel i g : ℕ)
      → Ranges (next_index m i)
      → Ranges g
      → is_allocated m g ≡ false
      → distance (num_indices m) (next_index m i) g ≤ fuel
      → (k : ℕ) × (probe m (suc fuel) i ≡ some k) × Ranges k × (is_allocated m k ≡ false)
  unfolding probe
  probe_finds zero i g r s f d = elim (Bool-cases (is_allocated m (next_index m i))) [
    | inr e ↦ (next_index m i, rw e refl, r, e)
    | inl e ↦
        let q : next_index m i ≡ g = none_left (next_index m i) g r s d in
        absurd (ground (arith, f, ap (is_allocated m) (sym q) ∙ e))
  ]
  probe_finds (suc fuel) i g r s f d = elim (Bool-cases (is_allocated m (next_index m i))) [
    | inr e ↦ (next_index m i, rw e refl, r, e)
    | inl e ↦
        let n : next_index m i ≢ g = λ q. ground (arith, f, ap (is_allocated m) (sym q) ∙ e) in
        let (k, p, h, z) =
          probe_finds fuel (next_index m i) g (next_in (next_index m i) r) s f
            (omega (arith, d, nearer (next_index m i) g r s n)) in
        (k, rw e p, h, z)
  ]

-- The element that was added is found at its index, and the others where they were.
pub record IsAdded {E : Type 0} (m : IndexMap E) (element : E) (i : ℕ) (later : IndexMap E)
    : Type 0 where
  pub from_range : (m.min_index ≤ i) × (i ≤ m.max_index)
  pub was_free : is_allocated m i ≡ false
  pub found : get later i ≡ some element
  pub others : (j : ℕ) → j ≢ i → get later j ≡ get m j
  pub size : length later.entries ≡ length m.entries + 1
  pub still_valid : IsIndexMap later

add_at-IsAdded :
    {E : Type 0} (m : IndexMap E) (element : E) (i : ℕ)
    → IsIndexMap m
    → (m.min_index ≤ i) × (i ≤ m.max_index)
    → is_allocated m i ≡ false
    → (add_at m element (some i) ≡ added i (with_entry m i element))
      × IsAdded m element i (with_entry m i element)
unfolding get_entry
add_at-IsAdded m element i v (a, b) f =
    let e : in_range m i ≡ true = ground (arith, a, b) in
    (
      ap (λ c. if c then added i (with_entry m i element) else Added.assertion_failed) e,
      record {
        from_range = (a, b);
        was_free = f;
        found = ground arith;
        others = λ j n. ground (arith, n);
        size = omega arith;
        still_valid = record { range = v.range; below_max = v.below_max; last = inl (a, b) };
      },
    )

not_full :
    {E : Type 0} (m : IndexMap E) (element : E) (fuel : ℕ)
    → length m.entries < num_indices m + 1
    → add fuel m element ≡ add_at m element (probe m fuel m.last_index)
unfolding add
not_full m element fuel h = rw (below h) refl
  where
    below : length m.entries < num_indices m + 1 → ltb (num_indices m) (length m.entries) ≡ false
    below h = ground (arith, h)

-- A map with fewer elements than its range has indices is given one more: the loop ends within as
-- many rounds as there are indices, at an index of the range that was not allocated, under which
-- the element is found, while the others stay where they were.
pub add-IsAdded :
    {E : Type 0} (m : IndexMap E) (element : E)
    → IsIndexMap m
    → length m.entries < num_indices m
    → (i : ℕ) × (later : IndexMap E) × (add (num_indices m) m element ≡ added i later)
      × IsAdded m element i later
unfolding add
add-IsAdded m element v h =
    let (g, a, b, f) =
      missing m.min_index (num_indices m) (indices m.entries)
        (rw (length-map m.entries (λ e. e.index)) h) in
    let r = first_in m v in
    let s : (m.min_index ≤ g) × (g ≤ m.max_index) = (a, omega (arith, b, v.range)) in
    let (k, p, q, n) =
      probe_finds m v (m.max_index - m.min_index) m.last_index g r s f
        (near_enough m v (next_index m m.last_index) g r s) in
    let t : num_indices m ≡ suc (m.max_index - m.min_index) = omega arith in
    let (e, z) = add_at-IsAdded m element k v q n in
    (
      k,
      with_entry m k element,
      not_full m element (num_indices m) (omega (arith, h))
          ∙ ap (add_at m element) (ap (λ x. probe m x m.last_index) t ∙ p)
          ∙ e,
      z,
    )

never_free :
    {E : Type 0} (m : IndexMap E) (fuel i : ℕ)
    → IsIndexMap m
    → ((j : ℕ) → m.min_index ≤ j → j ≤ m.max_index → is_allocated m j ≡ true)
    → (m.min_index ≤ next_index m i) × (next_index m i ≤ m.max_index)
    → probe m fuel i ≡ none
unfolding probe
never_free m zero i v h r = refl
never_free m (suc fuel) i v h (a, b) =
    rw (h (next_index m i) a b)
      (never_free m fuel (next_index m i) v h (next_in m v (next_index m i) (a, b)))

-- A map of which each index is allocated, to one element each, is not found to be full: the loop that
-- looks for a free index does not end, whatever its number of rounds is.
pub add_never_ends :
    {E : Type 0} (m : IndexMap E) (element : E) (fuel : ℕ)
    → IsIndexMap m
    → ((j : ℕ) → m.min_index ≤ j → j ≤ m.max_index → is_allocated m j ≡ true)
    → length m.entries ≡ num_indices m
    → add fuel m element ≡ out_of_fuel
add_never_ends m element fuel v h e =
    not_full m element fuel (omega (arith, e))
    ∙ ap (add_at m element) (never_free m fuel m.last_index v h (first_in m v))
