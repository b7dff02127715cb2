-- ===== src/Prelude/Int.antt =====
-- Signed integers over the native numbers: two's complement, shifts and comparison.
use wavm.Prelude.Tests.{leb, if◌then◌else◌}
use Prim.Native.Nat.{ℕ, ◌-◌, ◌/◌, ◌^◌}
use mathlib.Core.Bool.{Bool, true, false}

-- `negsuc n` is -(n + 1).
pub data ℤ : Type 0 where
  pos : ℕ → ℤ
  negsuc : ℕ → ℤ

abbrev pub leb_ℤ : ℤ → ℤ → Bool
leb_ℤ (pos a) (pos b) = leb a b
leb_ℤ (pos a) (negsuc b) = false
leb_ℤ (negsuc a) (pos b) = true
leb_ℤ (negsuc a) (negsuc b) = leb b a

-- The arithmetic shift to the right rounds down.
abbrev pub shift_right : ℤ → ℕ → ℤ
shift_right (pos n) s = pos (n / 2 ^ s)
shift_right (negsuc n) s = negsuc (n / 2 ^ s)

-- The integer of a bit pattern of `width` bits.
abbrev pub to_signed : ℕ → ℕ → ℤ
to_signed width p = if leb (2 ^ (width - 1)) p then negsuc (2 ^ width - 1 - p) else pos p
