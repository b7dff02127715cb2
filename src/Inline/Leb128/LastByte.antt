-- ===== src/Inline/Leb128/LastByte.antt =====
-- The test of the unused bits of the last byte.
use wavm.Prelude.{
  ℕ, zero, suc, ◌+◌, ◌-◌, ◌*◌, ◌^◌, ◌≤◌, ◌<◌, ◌≡◌, refl, Bool, true, false, List, [], ◌∷◌, length,
  get_or, arith,
}
use wavm.Inline.Leb128.{last_byte_fits}
use wavm.Inline.Leb128.Arithmetic.{lt_of_mul-lt}
use native.Mathlib.Nat.{one-le-pow}

-- The last byte that a value of `max_bits` bits can have.
pub get_or-beyond : (digits : List ℕ) (i : ℕ) → length digits ≤ i → get_or digits i 0 ≡ 0
get_or-beyond [] i h = refl
get_or-beyond (d ∷ digits) zero h = absurd (omega arith)
get_or-beyond (d ∷ digits) (suc i) h = get_or-beyond digits i (omega arith)

pub no_sign : (u last : ℕ) → 0 < u → u ≤ 7 → last < 2 ^ u → last_byte_fits false u last ≡ true
no_sign zero last a b h = absurd (omega arith)
no_sign (suc zero) last a b h = ground arith
no_sign (suc (suc zero)) last a b h = ground arith
no_sign (suc (suc (suc zero))) last a b h = ground arith
no_sign (suc (suc (suc (suc zero)))) last a b h = ground arith
no_sign (suc (suc (suc (suc (suc zero))))) last a b h = ground arith
no_sign (suc (suc (suc (suc (suc (suc zero)))))) last a b h = ground arith
no_sign (suc (suc (suc (suc (suc (suc (suc zero))))))) last a b h = ground arith
no_sign (suc (suc (suc (suc (suc (suc (suc (suc u)))))))) last a b h = absurd (omega arith)

pub positive_sign :
    (u last : ℕ) → 0 < u → u ≤ 7 → last < 2 ^ (u - 1) → last_byte_fits true u last ≡ true
positive_sign zero last a b h = absurd (omega arith)
positive_sign (suc zero) last a b h = ground arith
positive_sign (suc (suc zero)) last a b h = ground arith
positive_sign (suc (suc (suc zero))) last a b h = ground arith
positive_sign (suc (suc (suc (suc zero)))) last a b h = ground arith
positive_sign (suc (suc (suc (suc (suc zero))))) last a b h = ground arith
positive_sign (suc (suc (suc (suc (suc (suc zero)))))) last a b h = ground arith
positive_sign (suc (suc (suc (suc (suc (suc (suc zero))))))) last a b h = ground arith
positive_sign (suc (suc (suc (suc (suc (suc (suc (suc u)))))))) last a b h = absurd (omega arith)

pub negative_sign :
    (u last : ℕ)
    → 0 < u
    → u ≤ 7
    → last < 128
    → 128 ≤ last + 2 ^ (u - 1)
    → last_byte_fits true u last ≡ true
negative_sign zero last a b d h = absurd (omega arith)
negative_sign (suc zero) last a b d h = ground arith
negative_sign (suc (suc zero)) last a b d h = ground arith
negative_sign (suc (suc (suc zero))) last a b d h = ground arith
negative_sign (suc (suc (suc (suc zero)))) last a b d h = ground arith
negative_sign (suc (suc (suc (suc (suc zero))))) last a b d h = ground arith
negative_sign (suc (suc (suc (suc (suc (suc zero)))))) last a b d h = ground arith
negative_sign (suc (suc (suc (suc (suc (suc (suc zero))))))) last a b d h = ground arith
negative_sign (suc (suc (suc (suc (suc (suc (suc (suc u)))))))) last a b d h = absurd (omega arith)

pub no_byte : (is_signed : Bool) (u : ℕ) → 0 < u → u ≤ 7 → last_byte_fits is_signed u 0 ≡ true
no_byte false u a b = no_sign u 0 a b (one-le-pow u 2 (omega arith))
no_byte true u a b = positive_sign u 0 a b (one-le-pow (u - 1) 2 (omega arith))

-- The bounds of the last byte, from those of the value.
pub last_below : (last p v bound : ℕ) → last * p ≤ v → v < p * bound → last < bound
last_below last p v bound a b = lt_of_mul-lt last bound p (grind (arith, a, b))

pub last_above :
    (last p v n bound : ℕ)
    → v < (last + 1) * p
    → v + n + 1 ≡ 128 * p
    → n < p * bound
    → 128 ≤ last + bound
last_above last p v n bound a e b =
    let f : (last + 1) * p ≡ last * p + p = grind arith in
    let g : (last + 1 + bound) * p ≡ last * p + p + p * bound = grind arith in
    let h : 128 < last + 1 + bound =
      lt_of_mul-lt 128 (last + 1 + bound) p (omega (arith, a, e, b, f, g)) in
    omega (arith, h)
