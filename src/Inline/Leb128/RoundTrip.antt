-- ===== src/Inline/Leb128/RoundTrip.antt =====
-- What is written is read back.
use wavm.Prelude.{
  ℕ, suc, ◌+◌, ◌-◌, ◌*◌, ◌%◌, ◌^◌, ◌≤◌, ◌<◌, ◌≡◌, refl, sym, ap, subst, ◌∙◌, Bool, true, false,
  List, ◌++◌, ltb, some, get_or, if◌then◌else◌, ℤ, pos, negsuc, arith, ltb→lt, Bool-cases, inl, inr,
}
use wavm.Inline.Serialization.{ok, bytes}
use wavm.Inline.Leb128.{
  VarInt, in_bounds, write_digits, write_var_int, digits_value, read_var_int, max_bytes,
  num_used_bits_in_last_byte, last_byte_fits, sign_extended, check_read, decoded_value,
}
use wavm.Inline.Leb128.Arithmetic.{pow_seven, pow_split}
use wavm.Inline.Leb128.Extend.{sign_extended_pos, sign_extended_negsuc}
use wavm.Inline.Leb128.LastByte.{
  get_or-beyond, no_sign, positive_sign, negative_sign, no_byte, last_below, last_above,
}
use wavm.Inline.Leb128.Digits.{
  AreDigits, IsOf, StandsFor, SignFits, magnitude, digit_bound, write_digits-AreDigits,
}
use native.Mathlib.Nat.{
  mod-eq_of_lt, pow-le-pow_right, mul-le-mul_left, mul-le-mul_right, pow-succ',
}

-- The bits of a value that are not its sign.
abbrev pub data_bits : VarInt → ℕ
data_bits f = if f.is_signed then f.max_bits - 1 else f.max_bits

-- The sizes with which the source instantiates the template, and others.
pub record IsVarInt (f : VarInt) : Type 0 where
  pub some_bits : 0 < f.max_bits
  pub bits_fit : f.max_bits ≤ f.value_bits
  pub word : f.value_bits ≤ 64

-- A value of the type that has `max_bits` bits.
pub record Fits (f : VarInt) (value : ℤ) : Type 0 where
  pub of_type : IsOf f.is_signed value
  pub small : magnitude value < 2 ^ data_bits f
  pub bounded : in_bounds f value ≡ true

abbrev top_index : ℕ → ℕ
top_index max_bits = max_bytes max_bits - 1

abbrev bits_of : Bool → ℕ → ℕ
bits_of is_signed max_bits = if is_signed then max_bits - 1 else max_bits

data_bound :
    (max_bits : ℕ)
    → 0 < max_bits
    → 2 ^ max_bits ≡ 128 ^ top_index max_bits * 2 ^ num_used_bits_in_last_byte max_bits
data_bound max_bits h =
    let e : max_bits ≡ 7 * top_index max_bits + num_used_bits_in_last_byte max_bits =
      omega (arith, h) in
    ap (λ n. 2 ^ n) e ∙ pow_split (top_index max_bits) (num_used_bits_in_last_byte max_bits)

sign_bound :
    (max_bits : ℕ)
    → 0 < max_bits
    → 2 ^ (max_bits - 1) ≡ 128 ^ top_index max_bits * 2 ^ (num_used_bits_in_last_byte max_bits - 1)
sign_bound max_bits h =
    let e : max_bits - 1 ≡ 7 * top_index max_bits + (num_used_bits_in_last_byte max_bits - 1) =
      omega (arith, h) in
    ap (λ n. 2 ^ n) e ∙ pow_split (top_index max_bits) (num_used_bits_in_last_byte max_bits - 1)

-- The last byte of the digits that fill the buffer.
full_last :
    (is_signed : Bool) (value : ℤ) (max_bits last v : ℕ)
    → 0 < max_bits
    → IsOf is_signed value
    → magnitude value < 2 ^ bits_of is_signed max_bits
    → last < 128
    → StandsFor value (suc (top_index max_bits)) v
    → last * 128 ^ top_index max_bits ≤ v
    → v < (last + 1) * 128 ^ top_index max_bits
    → last_byte_fits is_signed (num_used_bits_in_last_byte max_bits) last ≡ true
full_last false (pos n) max_bits last v b o h d st above below =
    no_sign (num_used_bits_in_last_byte max_bits) last (omega arith) (omega arith)
      (last_below last _ v _ above (rw (← data_bound max_bits b) (omega arith)))
full_last false (negsuc n) max_bits last v b o h d st above below = absurd o
full_last true (pos n) max_bits last v b o h d st above below =
    positive_sign (num_used_bits_in_last_byte max_bits) last (omega arith) (omega arith)
      (last_below last _ v _ above (rw (← sign_bound max_bits b) (omega arith)))
full_last true (negsuc n) max_bits last v b o h d st above below =
    negative_sign (num_used_bits_in_last_byte max_bits) last (omega arith) (omega arith) d (
      last_above last (128 ^ top_index max_bits) v n (2 ^ (num_used_bits_in_last_byte max_bits - 1))
        below (rw (← pow-succ' 128 (top_index max_bits)) st) (rw (← sign_bound max_bits b) h))

-- The value of the digits, by the sign.
decode :
    (is_signed : Bool) (value : ℤ) (width max_bits others last v : ℕ)
    → 0 < max_bits
    → max_bits ≤ width
    → IsOf is_signed value
    → magnitude value < 2 ^ bits_of is_signed max_bits
    → StandsFor value (suc others) v
    → SignFits is_signed value last
    → last * 128 ^ others ≤ v
    → v < (last + 1) * 128 ^ others
    → (if is_signed
        then sign_extended width (7 * suc others) (v % 2 ^ width)
        else pos (v % 2 ^ width))
      ≡ value
decode false (pos n) width max_bits others last v b w o h st sign above below =
    ap pos (mod-eq_of_lt (grind (arith, st, h, pow-le-pow_right {n = 2} (omega arith) w)) ∙ st)
decode false (negsuc n) width max_bits others last v b w o h st sign above below = absurd o
decode true (pos n) width max_bits others last v b w o h st sign above below =
    let m : 2 ^ (max_bits - 1) ≤ 2 ^ (width - 1) =
      pow-le-pow_right {n = 2} (omega arith) (omega (arith, w)) in
    let e : 2 ^ (7 * suc others) ≡ 128 * 128 ^ others =
      pow_seven (suc others) ∙ pow-succ' 128 others in
    let f : (last + 1) * 128 ^ others ≤ 64 * 128 ^ others =
      mul-le-mul_right (128 ^ others) (omega (arith, sign)) in
    sign_extended_pos width (7 * suc others) v (omega (arith, b, w)) (omega (arith, st, h, m))
      (omega (arith, e, f, below))
    ∙ ap pos st
decode true (negsuc n) width max_bits others last v b w o h st sign above below =
    let m : 2 ^ (max_bits - 1) ≤ 2 ^ (width - 1) =
      pow-le-pow_right {n = 2} (omega arith) (omega (arith, w)) in
    let e : 2 ^ (7 * suc others) ≡ 128 * 128 ^ others =
      pow_seven (suc others) ∙ pow-succ' 128 others in
    let f : 64 * 128 ^ others ≤ last * 128 ^ others =
      mul-le-mul_right (128 ^ others) (omega (arith, sign)) in
    sign_extended_negsuc width (7 * suc others) v n (omega (arith, b, w)) (omega (arith, h, m))
      (st ∙ sym (pow_seven (suc others))) (omega (arith, e, f, above))

-- The loop has at least as many rounds as the value has digits.
written_digits :
    (is_signed : Bool) (value : ℤ) (max_bits : ℕ)
    → 0 < max_bits
    → max_bits ≤ 64
    → IsOf is_signed value
    → magnitude value < 2 ^ bits_of is_signed max_bits
    → (digits : List ℕ) × (write_digits is_signed 10 value ≡ some digits)
      × AreDigits is_signed value (suc (top_index max_bits)) digits
written_digits is_signed value max_bits b w o h =
    write_digits-AreDigits is_signed (top_index max_bits) 9 value o (omega (arith, w))
      (room is_signed h)
  where
    used : ℕ
    used = num_used_bits_in_last_byte max_bits

    room :
        (is_signed : Bool)
        → magnitude value < 2 ^ bits_of is_signed max_bits
        → magnitude value < digit_bound is_signed * 128 ^ top_index max_bits
    room false h =
        let e = data_bound max_bits b in
        let f : 128 ^ top_index max_bits * 2 ^ num_used_bits_in_last_byte max_bits
            ≤ 128 ^ top_index max_bits * 2 ^ 7 =
          mul-le-mul_left (128 ^ top_index max_bits)
            (pow-le-pow_right {n = 2} (omega arith) {j = 7} (omega (arith, b))) in
        omega (arith, h, e, f)
    room true h =
        let e = sign_bound max_bits b in
        let f : 128 ^ top_index max_bits * 2 ^ (num_used_bits_in_last_byte max_bits - 1)
            ≤ 128 ^ top_index max_bits * 2 ^ 6 =
          mul-le-mul_left (128 ^ top_index max_bits)
            (pow-le-pow_right {n = 2} (omega arith) {j = 6} (omega (arith, b))) in
        omega (arith, h, e, f)

last_fits :
    (is_signed : Bool) (value : ℤ) (max_bits : ℕ) (digits : List ℕ)
    → 0 < max_bits
    → IsOf is_signed value
    → magnitude value < 2 ^ bits_of is_signed max_bits
    → AreDigits is_signed value (suc (top_index max_bits)) digits
    → last_byte_fits is_signed
        (num_used_bits_in_last_byte max_bits)
        (get_or digits (top_index max_bits) 0)
      ≡ true
last_fits is_signed value max_bits digits b o h d =
    elim (Bool-cases (ltb d.others (top_index max_bits))) [
      | inl short ↦
          rw (get_or-beyond digits (top_index max_bits) (omega (arith, d.count, ltb→lt _ _ short)))
            (no_byte is_signed (num_used_bits_in_last_byte max_bits) (omega (arith, b))
              (omega (arith, b)))
      | inr full ↦
          let e : d.others ≡ top_index max_bits = ground (arith, d.enough, full) in
          rw (subst (λ i. get_or digits i 0 ≡ d.last) e d.last_is) (
            full_last is_signed value max_bits d.last (digits_value digits) b o h d.is_digit
              (subst (λ i. StandsFor value (suc i) (digits_value digits)) e d.stands)
              (subst (λ i. d.last * 128 ^ i ≤ digits_value digits) e d.above)
              (subst (λ i. digits_value digits < (d.last + 1) * 128 ^ i) e d.below))
    ]

read_back :
    (f : VarInt) (value : ℤ) (digits rest : List ℕ)
    → IsVarInt f
    → Fits f value
    → AreDigits f.is_signed value (suc (top_index f.max_bits)) digits
    → read_var_int f (digits ++ rest) ≡ ok value rest
unfolding read_var_int
read_back f value digits rest v h d =
    let n = last_fits f.is_signed value f.max_bits digits v.some_bits h.of_type h.small d in
    let x =
      decode f.is_signed value f.value_bits f.max_bits d.others d.last (digits_value digits)
        v.some_bits v.bits_fit h.of_type h.small d.stands d.sign d.above d.below in
    let k : decoded_value f digits ≡ value = rw d.count x in
    let r = d.read (max_bytes f.max_bits) rest (omega (arith, d.enough, v.some_bits)) in
    ap (check_read f) r ∙ rw (n, k, h.bounded) refl

-- A value of the format is written, in ten rounds at most, and what was written is read back as
-- the same value, whatever follows it. The format has at most 64 bits.
pub read_var_int-write_var_int :
    (f : VarInt) (value : ℤ)
    → IsVarInt f
    → Fits f value
    → (out : List ℕ) × (write_var_int f value ≡ some (bytes out))
      × ((rest : List ℕ) → read_var_int f (out ++ rest) ≡ ok value rest)
unfolding write_var_int
read_var_int-write_var_int f value v h =
    let (digits, e, d) =
      written_digits f.is_signed value f.max_bits v.some_bits (omega (arith, v.bits_fit, v.word))
        h.of_type h.small in
    (digits, rw (h.bounded, e) refl, λ rest. read_back f value digits rest v h d)
