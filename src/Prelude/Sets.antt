-- ===== src/Prelude/Sets.antt =====
-- Finite sets of numbers, as lists.
use wavm.Prelude.Tests.{◌==◌, if◌then◌else◌, Bool-cases}
use wavm.Prelude.Lists.{length}
use Prim.Native.Nat.{ℕ, ◌+◌, ◌≤◌, ◌<◌, zero, suc}
use mathlib.Core.Path.{◌≡◌, refl}
use mathlib.Core.Logic.{inl, inr}
use mathlib.Core.Bool.{Bool, true, false, not, ◌&&◌, ◌||◌}
use mathlib.Core.List.{List, [], ◌∷◌}
use native.Mathlib.Omega.{arith}

unfoldable pub contains : ℕ → List ℕ → Bool
contains x [] = false
contains x (y ∷ ys) = x == y || contains x ys

unfoldable pub remove : ℕ → List ℕ → List ℕ
remove x [] = []
remove x (y ∷ ys) = let others = remove x ys in if x == y then others else y ∷ others

pub contains-remove :
    (y x : ℕ) (xs : List ℕ) → contains y (remove x xs) ≡ contains y xs && not (x == y)
unfolding contains remove
contains-remove y x [] = refl
contains-remove y x (z ∷ zs) = ground (arith, contains-remove y x zs)

pub length-remove_le : (x : ℕ) (xs : List ℕ) → length (remove x xs) ≤ length xs
unfolding remove
length-remove_le x [] = omega arith
length-remove_le x (z ∷ zs) = ground (arith, length-remove_le x zs)

pub length-remove_lt :
    (x : ℕ) (xs : List ℕ) → contains x xs ≡ true → length (remove x xs) < length xs
unfolding contains remove
length-remove_lt x [] h = absurd cc
length-remove_lt x (z ∷ zs) h = elim (Bool-cases (x == z)) [
  | inl e ↦ ground (arith, e, length-remove_le x zs)
  | inr e ↦ ground (arith, e, length-remove_lt x zs (ground (arith, e, h)))
]

-- Among more numbers than a list has, one is not in it.
pub missing :
    (start n : ℕ) (xs : List ℕ)
    → length xs < n
    → (g : ℕ) × (start ≤ g) × (g < start + n) × (contains g xs ≡ false)
missing start zero xs h = absurd (omega (arith, h))
missing start (suc n) xs h = elim (Bool-cases (contains (start + n) xs)) [
  | inr e ↦ (start + n, omega arith, omega arith, e)
  | inl e ↦
      let (g, a, b, c) =
        missing start n (remove (start + n) xs)
          (omega (arith, h, length-remove_lt (start + n) xs e)) in
      (g, a, omega (arith, b), ground (arith, b, c, contains-remove g (start + n) xs))
]
