-- ===== src/Inline/Leb128/Arithmetic.antt =====
-- Powers of two, products and quotients.
use wavm.Prelude.{ℕ, zero, suc, ◌+◌, ◌-◌, ◌*◌, ◌/◌, ◌%◌, ◌^◌, ◌<◌, ◌≡◌, refl, sym, subst, arith}
use native.Mathlib.Nat.{pow-succ', div-eq_of_lt-le}

pub two-pow-add : (a b : ℕ) → 2 ^ (a + b) ≡ 2 ^ a * 2 ^ b
two-pow-add zero b = let e : 0 + b ≡ b = omega arith in rw e (omega arith)
two-pow-add (suc a) b =
    let e : suc a + b ≡ suc (a + b) = omega arith in
    rw (e, pow-succ' 2 (a + b), pow-succ' 2 a, two-pow-add a b) (grind arith)

pub pow_seven : (m : ℕ) → 2 ^ (7 * m) ≡ 128 ^ m
pow_seven zero = refl
pow_seven (suc m) =
    let e : 7 * suc m ≡ 7 + 7 * m = omega arith in
    rw (e, two-pow-add 7 (7 * m), pow-succ' 128 m, pow_seven m) refl

pub pow_split : (m u : ℕ) → 2 ^ (7 * m + u) ≡ 128 ^ m * 2 ^ u
pow_split m u = rw (two-pow-add (7 * m) u, pow_seven m) refl

pub mul-div_self : (v s : ℕ) → 0 < s → v * s / s ≡ v
mul-div_self v s h = grind arith

pub lt_of_mul-lt : (a b p : ℕ) → a * p < b * p → a < b
lt_of_mul-lt a b p h = grind arith

sub_div_sum : (d v s : ℕ) → 0 < s → ((v + 1 + d) * s - 1 - v * s) / s ≡ d
sub_div_sum d v s h =
    let e : (v + 1 + d) * s ≡ v * s + s + d * s = grind arith in
    let f : (d + 1) * s ≡ d * s + s = grind arith in
    div-eq_of_lt-le s (omega (arith, e, h)) (omega (arith, e, f, h))

pub sub_div : (a v s : ℕ) → 0 < s → v < a → (a * s - 1 - v * s) / s ≡ a - v - 1
sub_div a v s h k =
    let e : a ≡ v + 1 + (a - v - 1) = omega (arith, k) in
    subst (λ b. (b * s - 1 - v * s) / s ≡ a - v - 1) (sym e) (sub_div_sum (a - v - 1) v s h)

pub mod_below : (c w n : ℕ) → n < w → 0 < c → (c * w - 1 - n) % w ≡ w - 1 - n
mod_below c w n h k = grind arith
