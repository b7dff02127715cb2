-- ===== src/Inline/Leb128.antt =====
-- Variable-length integers: Include/WAVM/Inline/LEB128.h. A mask of low bits is a remainder, a
-- shift a product or quotient by a power of two, and `|` with bits that are clear a sum.
pub mod Arithmetic
pub mod Digits
pub mod LastByte
pub mod Extend
pub mod RoundTrip
pub mod Truncated
pub mod Formats
use wavm.Prelude.{
  ℕ, zero, suc, ◌+◌, ◌-◌, ◌*◌, ◌/◌, ◌%◌, ◌^◌, Bool, true, false, not, ◌&&◌, ◌||◌, List, [], ◌∷◌,
  ltb, leb, ◌==◌, Option, some, none, length, get_or, map_option, if◌then◌else◌, ℤ, pos, negsuc,
  leb_ℤ, shift_right, to_signed,
}
use wavm.Inline.Serialization.{
  FatalSerializationException, Read, Reader, ok, fatal, Written, bytes, failed,
}

-- The template arguments and the two bounds.
pub record VarInt : Type 0 where
  pub is_signed : Bool
  -- sizeof(Value) * 8
  pub value_bits : ℕ
  pub max_bits : ℕ
  pub min_value : ℤ
  pub max_value : ℤ

abbrev pub in_bounds : VarInt → ℤ → Bool
in_bounds f value = leb_ℤ f.min_value value && leb_ℤ value f.max_value

-- value & 127
abbrev pub low_digit : ℤ → ℕ
low_digit (pos n) = n % 128
low_digit (negsuc n) = 127 - n % 128

abbrev pub is_zero : ℤ → Bool
is_zero (pos n) = n == 0
is_zero (negsuc n) = false

abbrev pub is_minus_one : ℤ → Bool
is_minus_one (pos n) = false
is_minus_one (negsuc n) = n == 0

abbrev pub is_negative : ℤ → Bool
is_negative (pos n) = false
is_negative (negsuc n) = true

-- `more`, of the value that is left and the byte that is written.
abbrev pub more_bytes : Bool → ℤ → ℕ → Bool
more_bytes false value byte = not (is_zero value)
more_bytes true value byte =
    (not (is_zero value) && not (is_minus_one value))
    || (not (is_negative value) && leb 64 byte)
    || (is_negative value && ltb byte 64)

-- The loop that writes, on fuel.
unfoldable pub write_digits : Bool → ℕ → ℤ → Option (List ℕ)
write_digits is_signed zero value = none
write_digits is_signed (suc fuel) value =
    let rest = write_digits is_signed fuel (shift_right value 7) in
    if more_bytes is_signed (shift_right value 7) (low_digit value)
    then map_option (λ others. (low_digit value + 128) ∷ others) rest
    else some (low_digit value ∷ [])

abbrev pub written : Option (List ℕ) → Option Written
written = map_option bytes

-- A value of 64 bits has ten digits at most; `none` is a loop that needs more rounds.
unfoldable pub write_var_int : VarInt → ℤ → Option Written
unfolding write_digits
write_var_int f value =
    if in_bounds f value
    then written (write_digits f.is_signed 10 value)
    else some (failed FatalSerializationException.out_of_range)

abbrev pub max_bytes : ℕ → ℕ
max_bytes max_bits = (max_bits + 6) / 7

abbrev pub num_used_bits_in_last_byte : ℕ → ℕ
num_used_bits_in_last_byte max_bits = max_bits - (max_bytes max_bits - 1) * 7

-- The loop that reads bytes into the buffer.
unfoldable pub read_digits : ℕ → List ℕ → Read (List ℕ)
read_digits zero s = ok [] s
read_digits (suc n) [] = fatal FatalSerializationException.expected_data
read_digits (suc n) (b ∷ s) =
    let others = read_digits n s in
    if leb 128 b
    then elim others [ ok digits rest ↦ ok (b ∷ digits) rest | fatal e ↦ fatal e ]
    else ok (b ∷ []) s

-- The bits of the last byte that hold no bit of the value.
abbrev pub unused_part : ℕ → ℕ → ℕ
unused_part used last = last / 2 ^ used * 2 ^ used

-- `signExtendedLastBit & lastByteSignedMask`
abbrev pub sign_part : ℕ → ℕ → ℕ
sign_part used last = if last / 2 ^ (used - 1) % 2 == 1 then 128 - 2 ^ used else 0

abbrev pub last_byte_fits : Bool → ℕ → ℕ → Bool
last_byte_fits false used last = unused_part used last == 0
last_byte_fits true used last = unused_part used last == sign_part used last

-- The loop that decodes the buffer.
unfoldable pub digits_value : List ℕ → ℕ
digits_value [] = 0
digits_value (b ∷ digits) = b % 128 + 128 * digits_value digits

-- A value of which the low bits were read, sign-extended to its width.
abbrev pub sign_extended : ℕ → ℕ → ℕ → ℤ
sign_extended width bits value =
    if ltb bits width
    then shift_right (to_signed width (value * 2 ^ (width - bits) % 2 ^ width)) (width - bits)
    else to_signed width value

abbrev pub decoded_value : VarInt → List ℕ → ℤ
decoded_value f digits =
    if f.is_signed
    then sign_extended f.value_bits (7 * length digits) (digits_value digits % 2 ^ f.value_bits)
    else pos (digits_value digits % 2 ^ f.value_bits)

abbrev pub unused_bits_error : Bool → FatalSerializationException
unused_bits_error false = FatalSerializationException.unused_bits
unused_bits_error true = FatalSerializationException.unused_sign_bits

abbrev pub check_digits : VarInt → List ℕ → Reader ℤ
check_digits f digits rest =
    if not (
      last_byte_fits f.is_signed (num_used_bits_in_last_byte f.max_bits)
        (get_or digits (max_bytes f.max_bits - 1) 0))
    then fatal (unused_bits_error f.is_signed)
    else (if in_bounds f (decoded_value f digits)
        then ok (decoded_value f digits) rest
        else fatal FatalSerializationException.out_of_range)

abbrev pub check_read : VarInt → Read (List ℕ) → Read ℤ
check_read f (ok digits rest) = check_digits f digits rest
check_read f (fatal e) = fatal e

unfoldable pub read_var_int : VarInt → Reader ℤ
unfolding read_digits digits_value
read_var_int f s = check_read f (read_digits (max_bytes f.max_bits) s)
