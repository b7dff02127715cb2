-- ===== src/Tests/Maps.antt =====
-- A map of three indices.
use wavm.Prelude.{ℕ, ◌≤◌, ◌≡◌, refl, inl, true, [], ◌∷◌, arith, contains}
use wavm.Inline.IndexMap.{
  IndexMap, empty_map, is_allocated, probe, with_entry, added, out_of_fuel, add,
}
use wavm.Inline.IndexMap.Allocation.{IsAdded, add-IsAdded, add_never_ends}

abbrev one_left : IndexMap ℕ
one_left = record {
  last_index = 2;
  min_index = 0;
  max_index = 2;
  entries = record { index = 2; element = 30 } ∷ record { index = 0; element = 10 } ∷ [];
}

abbrev none_left : IndexMap ℕ
none_left = with_entry one_left 1 20

-- The first index of an empty map, and the next that is free.
first_of_empty : add {E = ℕ} 3 (empty_map 0 2) 7 ≡ added 0 (with_entry (empty_map 0 2) 0 7)
unfolding add probe contains
first_of_empty = refl

free_one : add 3 one_left 20 ≡ added 1 none_left
unfolding add probe contains
free_one = refl

add-IsAdded_example :
    (i : ℕ) × (later : IndexMap ℕ) × (add 3 one_left 20 ≡ added i later)
    × IsAdded one_left 20 i later
add-IsAdded_example =
    add-IsAdded one_left 20
      (record {
        range = omega arith;
        below_max = omega arith;
        last = inl (omega arith, omega arith);
      })
      (omega arith)

all_allocated : (j : ℕ) → 0 ≤ j → j ≤ 2 → is_allocated none_left j ≡ true
unfolding contains
all_allocated j a b = ground (arith, a, b)

add_never_ends_example : add 1000 none_left 40 ≡ out_of_fuel
add_never_ends_example =
    add_never_ends none_left 40 1000
      (record {
        range = omega arith;
        below_max = omega arith;
        last = inl (omega arith, omega arith);
      })
      all_allocated refl
