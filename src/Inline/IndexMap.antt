-- ===== src/Inline/IndexMap.antt =====
-- Maps from a range of indices: Include/WAVM/Inline/IndexMap.h, at an index type of 64 bits. The
-- HashMap within is the list of its pairs.
pub mod Allocation
use wavm.Prelude.{
  ℕ, zero, suc, ◌+◌, ◌-◌, ◌%◌, ◌^◌, Bool, true, false, not, ◌&&◌, ◌||◌, List, [], ◌∷◌, map, length,
  ltb, leb, ◌==◌, Option, some, none, if◌then◌else◌, contains,
}

pub record Entry (E : Type 0) : Type 0 where
  pub index : ℕ
  pub element : E

pub record IndexMap (E : Type 0) : Type 0 where
  pub last_index : ℕ
  pub min_index : ℕ
  pub max_index : ℕ
  pub entries : List (Entry E)

module _ {E : Type 0} where
  abbrev pub empty_map : ℕ → ℕ → IndexMap E
  empty_map min_index max_index = record {
    last_index = (min_index + (2 ^ 64 - 1)) % 2 ^ 64;
    min_index = min_index;
    max_index = max_index;
    entries = [];
  }

  abbrev pub indices : List (Entry E) → List ℕ
  indices = map (λ e. e.index)

  -- `map.contains`
  abbrev pub is_allocated : IndexMap E → ℕ → Bool
  is_allocated m i = contains i (indices m.entries)

  -- The two assertions on an index.
  abbrev pub in_range : IndexMap E → ℕ → Bool
  in_range m i = leb m.min_index i && leb i m.max_index

  -- The step of the loop in `add`.
  abbrev pub next_index : IndexMap E → ℕ → ℕ
  next_index m last_index =
      if ltb m.max_index ((last_index + 1) % 2 ^ 64) then m.min_index else (last_index + 1) % 2 ^ 64

  -- The loop, on fuel; `none` is a loop that has more rounds.
  unfoldable pub probe : IndexMap E → ℕ → ℕ → Option ℕ
  probe m zero last_index = none
  probe m (suc fuel) last_index =
      let rest = probe m fuel (next_index m last_index) in
      if is_allocated m (next_index m last_index) then rest else some (next_index m last_index)

  -- `Uptr(maxIndex - minIndex + 1)`
  abbrev pub num_indices : IndexMap E → ℕ
  num_indices m = m.max_index - m.min_index + 1

  abbrev pub with_entry : IndexMap E → ℕ → E → IndexMap E
  with_entry m i element = record {
    last_index = i;
    min_index = m.min_index;
    max_index = m.max_index;
    entries = record { index = i; element = element } ∷ m.entries;
  }

pub data Added (E : Type 0) : Type 0 where
  full : Added E
  added : ℕ → IndexMap E → Added E
  assertion_failed : Added E
  out_of_fuel : Added E

module _ {E : Type 0} where
  abbrev pub add_at : IndexMap E → E → Option ℕ → Added E
  add_at m element (some i) =
      if in_range m i then added i (with_entry m i element) else assertion_failed
  add_at m element none = out_of_fuel

  unfoldable pub add : ℕ → IndexMap E → E → Added E
  unfolding probe
  add fuel m element =
      if ltb (num_indices m) (length m.entries)
      then full
      else add_at m element (probe m fuel m.last_index)

  unfoldable pub get_entry : List (Entry E) → ℕ → Option E
  get_entry [] i = none
  get_entry (e ∷ entries) i =
      let rest = get_entry entries i in if i == e.index then some e.element else rest

  -- `get`, after its assertions.
  abbrev pub get : IndexMap E → ℕ → Option E
  get m i = get_entry m.entries i
