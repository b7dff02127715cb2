-- ===== src/Inline/Leb128/Digits.antt =====
-- What the loop that writes digits has written, and how the loop that reads them takes it.
use wavm.Prelude.{
  ℕ, zero, suc, ◌+◌, ◌*◌, ◌%◌, ◌^◌, ◌≤◌, ◌<◌, ◌≡◌, refl, Bool, true, false, List, [], ◌∷◌, ◌++◌,
  leb, some, length, get_or, ℤ, pos, negsuc, shift_right, arith, Bool-cases, inl, inr, ap, subst,
}
use wavm.Inline.Serialization.{ok}
use wavm.Inline.Leb128.{low_digit, more_bytes, write_digits, read_digits, digits_value}
use native.Mathlib.Nat.{pow-succ'}

-- The value of `len` digits stands for an integer: in two's complement if it is negative.
abbrev pub StandsFor : ℤ → ℕ → ℕ → Type 0
StandsFor (pos n) len value = value ≡ n
StandsFor (negsuc n) len value = value + n + 1 ≡ 128 ^ len

-- The sign bit of the last digit.
abbrev pub SignFits : Bool → ℤ → ℕ → Type 0
SignFits false value last = Unit
SignFits true (pos n) last = last < 64
SignFits true (negsuc n) last = 64 ≤ last

abbrev pub magnitude : ℤ → ℕ
magnitude (pos n) = n
magnitude (negsuc n) = n

-- The bound of the last digit: one bit of it is the sign.
abbrev pub digit_bound : Bool → ℕ
digit_bound false = 128
digit_bound true = 64

-- An unsigned integer is not negative.
abbrev pub IsOf : Bool → ℤ → Type 0
IsOf false (pos n) = Unit
IsOf false (negsuc n) = ⊥
IsOf true value = Unit

-- `others` digits, and the last one.
pub record AreDigits (is_signed : Bool) (value : ℤ) (fuel : ℕ) (digits : List ℕ) : Type 0 where
  pub others : ℕ
  pub last : ℕ
  pub count : length digits ≡ suc others
  pub enough : others < fuel
  pub last_is : get_or digits others 0 ≡ last
  pub is_digit : last < 128
  pub stands : StandsFor value (suc others) (digits_value digits)
  pub sign : SignFits is_signed value last
  pub above : last * 128 ^ others ≤ digits_value digits
  pub below : digits_value digits < (last + 1) * 128 ^ others
  pub read : (m : ℕ) (rest : List ℕ) → others < m → read_digits m (digits ++ rest) ≡ ok digits rest

low_digit_lt : (value : ℤ) → low_digit value < 128
low_digit_lt (pos n) = ground arith
low_digit_lt (negsuc n) = ground arith

one_digit_stands :
    (is_signed : Bool) (value : ℤ)
    → IsOf is_signed value
    → more_bytes is_signed (shift_right value 7) (low_digit value) ≡ false
    → StandsFor value 1 (low_digit value % 128 + 0) × SignFits is_signed value (low_digit value)
one_digit_stands false (pos n) o h = (ground arith, tt)
one_digit_stands false (negsuc n) o h = absurd o
one_digit_stands true (pos n) o h = (ground arith, ground arith)
one_digit_stands true (negsuc n) o h = (ground arith, ground arith)

read_one_digit :
    (digit : ℕ) (m : ℕ) (rest : List ℕ)
    → digit < 128
    → 0 < m
    → read_digits m (digit ∷ rest) ≡ ok (digit ∷ []) rest
unfolding read_digits
read_one_digit digit zero rest d h = absurd (omega arith)
read_one_digit digit (suc m) rest d h = ground arith

read_more_digits :
    (digit m : ℕ) (digits s rest : List ℕ)
    → read_digits m s ≡ ok digits rest
    → read_digits (suc m) ((digit + 128) ∷ s) ≡ ok ((digit + 128) ∷ digits) rest
unfolding read_digits
read_more_digits digit m digits s rest h =
    let e : leb 128 (digit + 128) ≡ true = ground arith in rw (e, h) refl

one_digit :
    (is_signed : Bool) (value : ℤ) (fuel : ℕ)
    → IsOf is_signed value
    → more_bytes is_signed (shift_right value 7) (low_digit value) ≡ false
    → AreDigits is_signed value (suc fuel) (low_digit value ∷ [])
unfolding digits_value
one_digit is_signed value fuel o h =
    let lt = low_digit_lt value in
    let (stands, sign) = one_digit_stands is_signed value o h in
    record {
      others = 0;
      last = low_digit value;
      count = refl;
      enough = omega arith;
      last_is = refl;
      is_digit = lt;
      stands = stands;
      sign = sign;
      above = omega (arith, lt);
      below = omega (arith, lt);
      read = λ m rest p. read_one_digit (low_digit value) m rest lt p;
    }

more_stands :
    (value : ℤ) (len v : ℕ)
    → StandsFor (shift_right value 7) len v
    → StandsFor value (suc len) ((low_digit value + 128) % 128 + 128 * v)
more_stands (pos n) len v h = omega (arith, h)
more_stands (negsuc n) len v h = rw (pow-succ' 128 len) (omega (arith, h))

more_sign :
    (is_signed : Bool) (value : ℤ) (last : ℕ)
    → SignFits is_signed (shift_right value 7) last
    → SignFits is_signed value last
more_sign false value last h = tt
more_sign true (pos n) last h = h
more_sign true (negsuc n) last h = h

shift_right-IsOf :
    (is_signed : Bool) (value : ℤ) → IsOf is_signed value → IsOf is_signed (shift_right value 7)
shift_right-IsOf false (pos n) o = tt
shift_right-IsOf false (negsuc n) o = o
shift_right-IsOf true value o = tt

more_digits :
    (is_signed : Bool) (value : ℤ) (fuel : ℕ) (digits : List ℕ)
    → AreDigits is_signed (shift_right value 7) fuel digits
    → AreDigits is_signed value (suc fuel) ((low_digit value + 128) ∷ digits)
unfolding digits_value
more_digits is_signed value fuel digits d =
    let lt = low_digit_lt value in
    let e : d.last * 128 ^ suc d.others ≡ 128 * (d.last * 128 ^ d.others) =
      rw (pow-succ' 128 d.others) (grind arith) in
    let f : (d.last + 1) * 128 ^ suc d.others ≡ 128 * ((d.last + 1) * 128 ^ d.others) =
      rw (pow-succ' 128 d.others) (grind arith) in
    record {
      others = suc d.others;
      last = d.last;
      count = ap suc d.count;
      enough = omega (arith, d.enough);
      last_is = d.last_is;
      is_digit = d.is_digit;
      stands = more_stands value (suc d.others) (digits_value digits) d.stands;
      sign = more_sign is_signed value d.last d.sign;
      above = omega (arith, e, d.above);
      below = omega (arith, f, d.below);
      read = λ m rest p. read m rest p;
    }
  where
    read :
        (m : ℕ) (rest : List ℕ)
        → suc d.others < m
        → read_digits m ((low_digit value + 128) ∷ (digits ++ rest))
          ≡ ok ((low_digit value + 128) ∷ digits) rest
    read zero rest p = absurd (omega arith)
    read (suc m) rest p =
        read_more_digits (low_digit value) m digits (digits ++ rest) rest
          (d.read m rest (omega arith))

-- A value whose digits end within the fuel has no more than the last one.
ends :
    (is_signed : Bool) (value : ℤ)
    → IsOf is_signed value
    → magnitude value < digit_bound is_signed
    → more_bytes is_signed (shift_right value 7) (low_digit value) ≡ false
ends false (pos n) o h = ground arith
ends false (negsuc n) o h = absurd o
ends true (pos n) o h = ground arith
ends true (negsuc n) o h = ground arith

magnitude-shift_right :
    (value : ℤ) (bound k : ℕ)
    → magnitude value < bound * 128 ^ suc k
    → magnitude (shift_right value 7) < bound * 128 ^ k
magnitude-shift_right value bound k h = go value (subst (λ t. magnitude value < t) e h)
  where
    e : bound * 128 ^ suc k ≡ 128 * (bound * 128 ^ k)
    e = rw (pow-succ' 128 k) (grind arith)

    go :
        (value : ℤ)
        → magnitude value < 128 * (bound * 128 ^ k)
        → magnitude (shift_right value 7) < bound * 128 ^ k
    go (pos n) h = omega (arith, h)
    go (negsuc n) h = omega (arith, h)

-- A value that `k + 1` digits can hold is written in so many rounds.
pub write_digits-AreDigits :
    (is_signed : Bool) (k fuel : ℕ) (value : ℤ)
    → IsOf is_signed value
    → k ≤ fuel
    → magnitude value < digit_bound is_signed * 128 ^ k
    → (digits : List ℕ) × (write_digits is_signed (suc fuel) value ≡ some digits)
      × AreDigits is_signed value (suc k) digits
unfolding write_digits
write_digits-AreDigits is_signed zero fuel value o f h =
    let stop = ends is_signed value o (omega (arith, h)) in
    (low_digit value ∷ [], rw stop refl, one_digit is_signed value 0 o stop)
write_digits-AreDigits is_signed (suc k) zero value o f h = absurd (omega arith)
write_digits-AreDigits is_signed (suc k) (suc fuel) value o f h =
    elim (Bool-cases (more_bytes is_signed (shift_right value 7) (low_digit value))) [
      | inr stop ↦ (low_digit value ∷ [], rw stop refl, one_digit is_signed value (suc k) o stop)
      | inl more ↦
          let (digits, e, d) =
            write_digits-AreDigits is_signed k fuel (shift_right value 7)
              (shift_right-IsOf is_signed value o) (omega arith)
              (magnitude-shift_right value (digit_bound is_signed) k h) in
          (
            (low_digit value + 128) ∷ digits,
            rw (more, e) refl,
            more_digits is_signed value (suc k) digits d,
          )
    ]
