-- ===== src/Inline/Leb128/Extend.antt =====
-- Sign extension of a value of which fewer bits than its width were read.
use wavm.Prelude.{
  ℕ, suc, ◌+◌, ◌-◌, ◌*◌, ◌/◌, ◌%◌, ◌^◌, ◌≤◌, ◌<◌, ◌≡◌, refl, sym, ap, ◌∙◌, true, false, ltb, leb,
  pos, negsuc, shift_right, to_signed, arith, ltb→lt, Bool-cases, inl, inr,
}
use wavm.Inline.Leb128.{sign_extended}
use wavm.Inline.Leb128.Arithmetic.{two-pow-add, mul-div_self, sub_div, mod_below}
use native.Mathlib.Nat.{mod-eq_of_lt, one-le-pow, mul-le-mul_right, pow-succ'}

no_leb : (a b : ℕ) → b < a → leb a b ≡ false
no_leb a b h = ground arith

yes_leb : (a b : ℕ) → a ≤ b → leb a b ≡ true
yes_leb a b h = ground arith

module _ (w k v : ℕ) (short : k < w) (fits : v < 2 ^ k) where
  width : 2 ^ w ≡ 2 ^ k * 2 ^ (w - k)
  width =
      let e : w ≡ k + (w - k) = omega (arith, short) in ap (λ n. 2 ^ n) e ∙ two-pow-add k (w - k)

  half_width : 2 * 2 ^ (w - 1) ≡ 2 ^ w
  half_width =
      let e : w ≡ suc (w - 1) = omega (arith, short) in
      sym (ap (λ n. 2 ^ n) e ∙ pow-succ' 2 (w - 1))

  shifted-lt : v * 2 ^ (w - k) < 2 ^ w
  shifted-lt =
      let p : 1 ≤ 2 ^ (w - k) = one-le-pow (w - k) 2 (omega arith) in
      let e : (v + 1) * 2 ^ (w - k) ≡ v * 2 ^ (w - k) + 2 ^ (w - k) = grind arith in
      let h : (v + 1) * 2 ^ (w - k) ≤ 2 ^ k * 2 ^ (w - k) = grind (arith, fits) in
      omega (arith, width, p, e, h)

  fits_word : v % 2 ^ w ≡ v
  fits_word = mod-eq_of_lt (grind (arith, shifted-lt, one-le-pow (w - k) 2 (omega arith)))

  shifted_word : v % 2 ^ w * 2 ^ (w - k) % 2 ^ w ≡ v * 2 ^ (w - k)
  shifted_word = rw fits_word (mod-eq_of_lt shifted-lt)

  pub extend_pos :
      2 * v < 2 ^ k → shift_right (to_signed w (v % 2 ^ w * 2 ^ (w - k) % 2 ^ w)) (w - k) ≡ pos v
  extend_pos h =
      let e : suc (2 * v) * 2 ^ (w - k) ≡ 2 * (v * 2 ^ (w - k)) + 2 ^ (w - k) = grind arith in
      let g : suc (2 * v) * 2 ^ (w - k) ≤ 2 ^ k * 2 ^ (w - k) = mul-le-mul_right (2 ^ (w - k)) h in
      let p = one-le-pow (w - k) 2 (omega arith) in
      let test : leb (2 ^ (w - 1)) (v * 2 ^ (w - k)) ≡ false =
        no_leb _ _ (omega (arith, e, g, p, width, half_width)) in
      rw (shifted_word, test) (ap pos (mul-div_self v (2 ^ (w - k)) p))

  pub extend_negsuc :
      2 ^ k ≤ 2 * v
      → shift_right (to_signed w (v % 2 ^ w * 2 ^ (w - k) % 2 ^ w)) (w - k) ≡ negsuc (2 ^ k - v - 1)
  extend_negsuc h =
      let e : 2 * v * 2 ^ (w - k) ≡ 2 * (v * 2 ^ (w - k)) = grind arith in
      let g : 2 ^ k * 2 ^ (w - k) ≤ 2 * v * 2 ^ (w - k) = mul-le-mul_right (2 ^ (w - k)) h in
      let p = one-le-pow (w - k) 2 (omega arith) in
      let test : leb (2 ^ (w - 1)) (v * 2 ^ (w - k)) ≡ true =
        yes_leb _ _ (omega (arith, e, g, width, half_width)) in
      rw (shifted_word, test)
        (ap (λ n. negsuc ((n - 1 - v * 2 ^ (w - k)) / 2 ^ (w - k))) width
          ∙ ap negsuc (sub_div (2 ^ k) v (2 ^ (w - k)) p fits))

-- At the full width there is nothing to extend.
whole_pos : (w v : ℕ) → 0 < w → v < 2 ^ (w - 1) → to_signed w (v % 2 ^ w) ≡ pos v
whole_pos w v h b =
    let e : 2 * 2 ^ (w - 1) ≡ 2 ^ w =
      let d : w ≡ suc (w - 1) = omega (arith, h) in sym (ap (λ n. 2 ^ n) d ∙ pow-succ' 2 (w - 1)) in
    let f : v % 2 ^ w ≡ v = mod-eq_of_lt (omega (arith, b, e)) in
    rw (f, no_leb (2 ^ (w - 1)) v b) refl

whole_negsuc :
    (w bits v n : ℕ)
    → 0 < w
    → w ≤ bits
    → v + n + 1 ≡ 2 ^ bits
    → n < 2 ^ (w - 1)
    → to_signed w (v % 2 ^ w) ≡ negsuc n
whole_negsuc w bits v n h le e b =
    let half : 2 * 2 ^ (w - 1) ≡ 2 ^ w =
      let d : w ≡ suc (w - 1) = omega (arith, h) in sym (ap (λ n. 2 ^ n) d ∙ pow-succ' 2 (w - 1)) in
    let wide : 2 ^ bits ≡ 2 ^ (bits - w) * 2 ^ w =
      let d : bits ≡ (bits - w) + w = omega (arith, le) in
      ap (λ n. 2 ^ n) d ∙ two-pow-add (bits - w) w in
    let value : v ≡ 2 ^ (bits - w) * 2 ^ w - 1 - n = omega (arith, e, wide) in
    let m : v % 2 ^ w ≡ 2 ^ w - 1 - n =
      ap (λ t. t % 2 ^ w) value
      ∙ mod_below (2 ^ (bits - w)) (2 ^ w) n (omega (arith, half, b))
          (one-le-pow (bits - w) 2 (omega arith)) in
    let back : 2 ^ w - 1 - (2 ^ w - 1 - n) ≡ n = omega (arith, half, b) in
    rw (m, yes_leb (2 ^ (w - 1)) (2 ^ w - 1 - n) (omega (arith, half, b)), back) refl

-- The value of `bits` bits with their sign, whatever the width.
pub sign_extended_pos :
    (w bits v : ℕ)
    → 0 < w
    → v < 2 ^ (w - 1)
    → 2 * v < 2 ^ bits
    → sign_extended w bits (v % 2 ^ w) ≡ pos v
sign_extended_pos w bits v h b low = elim (Bool-cases (ltb bits w)) [
  | inl short ↦ rw short (extend_pos w bits v (ltb→lt bits w short) (omega (arith, low)) low)
  | inr full ↦ rw full (whole_pos w v h b)
]

pub sign_extended_negsuc :
    (w bits v n : ℕ)
    → 0 < w
    → n < 2 ^ (w - 1)
    → v + n + 1 ≡ 2 ^ bits
    → 2 ^ bits ≤ 2 * v
    → sign_extended w bits (v % 2 ^ w) ≡ negsuc n
sign_extended_negsuc w bits v n h b e high = elim (Bool-cases (ltb bits w)) [
  | inl short ↦
      let d : 2 ^ bits - v - 1 ≡ n = omega (arith, e) in
      rw short (extend_negsuc w bits v (ltb→lt bits w short) (omega (arith, e)) high ∙ ap negsuc d)
  | inr full ↦ rw full (whole_negsuc w bits v n h (ground arith) e b)
]
