-- ===== src/Inline/Unicode.antt =====
-- UTF-8 and UTF-16: Include/WAVM/Inline/Unicode.h. A range of characters is the list of what
-- stands from the cursor to its end. A mask of low bits is a remainder, a right shift a quotient,
-- and `|` with bits that are clear a sum.
pub mod Utf8
pub mod WellFormed
pub mod Utf16
pub mod Transcode
use wavm.Prelude.{
  ℕ, zero, suc, ◌+◌, ◌-◌, ◌*◌, ◌/◌, ◌%◌, Bool, true, false, ◌&&◌, ◌||◌, List, [], ◌∷◌, ◌++◌, ltb,
  leb, ◌==◌, length, if◌then◌else◌,
}

-- `overread` is no result of the source: a character at or behind the end is read.
pub data Decoding : Type 0 where
  decoded : ℕ → List ℕ → Decoding
  malformed overread : Decoding

abbrev pub between : ℕ → ℕ → ℕ → Bool
between low high b = leb low b && leb b high

abbrev pub is_continuation : ℕ → Bool
is_continuation b = between 128 191 b

-- The assertion that the code point is less than 0x200000 is left out; it holds of scalar values.
unfoldable pub encode_utf8_code_point : ℕ → List ℕ
encode_utf8_code_point c =
    if ltb c 128
    then c ∷ []
    else (if ltb c 2048
        then (192 + c / 64 % 32) ∷ (128 + c % 64) ∷ []
        else (if ltb c 65536
            then (224 + c / 4096 % 16) ∷ (128 + c / 64 % 64) ∷ (128 + c % 64) ∷ []
            else (240 + c / 262144 % 8)
              ∷ (128 + c / 4096 % 64)
              ∷ (128 + c / 64 % 64)
              ∷ (128 + c % 64)
              ∷ []))

abbrev pub decode_two : ℕ → List ℕ → Decoding
decode_two b0 [] = malformed
decode_two b0 (b1 ∷ rest) =
    if is_continuation b1 then decoded (b0 % 32 * 64 + b1 % 64) rest else malformed

-- The range of the second byte after the first byte of a sequence of three.
abbrev pub second_of_three : ℕ → ℕ → Bool
second_of_three b0 b1 =
    if b0 == 224
    then between 160 191 b1
    else (if b0 == 237 then between 128 159 b1 else is_continuation b1)

abbrev pub decode_three : ℕ → List ℕ → Decoding
decode_three b0 [] = malformed
decode_three b0 (b1 ∷ []) = malformed
decode_three b0 (b1 ∷ b2 ∷ rest) =
    if second_of_three b0 b1 && is_continuation b2
    then decoded (b0 % 16 * 4096 + b1 % 64 * 64 + b2 % 64) rest
    else malformed

abbrev pub second_of_four : ℕ → ℕ → Bool
second_of_four b0 b1 =
    if b0 == 240
    then between 144 191 b1
    else (if b0 == 244 then between 128 143 b1 else is_continuation b1)

abbrev pub decode_four : ℕ → List ℕ → Decoding
decode_four b0 [] = malformed
decode_four b0 (b1 ∷ []) = malformed
decode_four b0 (b1 ∷ b2 ∷ []) = malformed
decode_four b0 (b1 ∷ b2 ∷ b3 ∷ rest) =
    if second_of_four b0 b1 && is_continuation b2 && is_continuation b3
    then decoded (b0 % 8 * 262144 + b1 % 64 * 4096 + b2 % 64 * 64 + b3 % 64) rest
    else malformed

unfoldable pub decode_utf8_code_point : List ℕ → Decoding
decode_utf8_code_point [] = overread
decode_utf8_code_point (b0 ∷ bytes) =
    if ltb b0 128
    then decoded b0 bytes
    else (if between 194 223 b0
        then decode_two b0 bytes
        else (if between 224 239 b0
            then decode_three b0 bytes
            else (if between 240 244 b0 then decode_four b0 bytes else malformed)))

unfoldable pub decode_utf16_code_point : List ℕ → Decoding
decode_utf16_code_point [] = overread
decode_utf16_code_point (u0 ∷ []) =
    if ltb u0 55296 || leb 57344 u0
    then decoded u0 []
    else (if leb u0 56319 then overread else malformed)
decode_utf16_code_point (u0 ∷ u1 ∷ units) =
    if ltb u0 55296 || leb 57344 u0
    then decoded u0 (u1 ∷ units)
    else (if leb u0 56319
        then (if between 56320 57343 u1
            then decoded ((u0 - 55296) * 1024 + (u1 - 56320) + 65536) units
            else malformed)
        else malformed)

-- The assertion that the code point is less than 0x110000 is left out; it holds of scalar values.
unfoldable pub encode_utf16_code_point : ℕ → List ℕ
encode_utf16_code_point c =
    if ltb c 65536
    then c % 65536 ∷ []
    else (55296 + (c - 65536) / 1024 % 1024) ∷ (56320 + (c - 65536) % 1024) ∷ []

-- What a loop over the code points of a range has written and where it stops.
pub data Transcoding : Type 0 where
  stopped : List ℕ → List ℕ → Transcoding
  overread : Transcoding

abbrev pub write : List ℕ → Transcoding → Transcoding
write out (stopped written rest) = stopped (out ++ written) rest
write out overread = overread

-- The three loops differ in how they decode, and in what they write. Each turn takes at least
-- one character, so the length of the range is fuel enough.
unfoldable pub each_code_point : (List ℕ → Decoding) → (ℕ → List ℕ) → ℕ → List ℕ → Transcoding
each_code_point decode encode fuel [] = stopped [] []
each_code_point decode encode zero (b ∷ chars) = stopped [] (b ∷ chars)
each_code_point decode encode (suc fuel) (b ∷ chars) = elim (decode (b ∷ chars)) [
  | decoded c rest ↦ write (encode c) (each_code_point decode encode fuel rest)
  | malformed ↦ stopped [] (b ∷ chars)
  | overread ↦ overread
]

unfoldable pub validate_utf8_string : List ℕ → Transcoding
unfolding each_code_point decode_utf8_code_point
validate_utf8_string bytes = each_code_point decode_utf8_code_point (λ c. []) (length bytes) bytes

unfoldable pub transcode_utf8_to_utf16 : List ℕ → Transcoding
unfolding each_code_point decode_utf8_code_point encode_utf16_code_point
transcode_utf8_to_utf16 bytes =
    each_code_point decode_utf8_code_point encode_utf16_code_point (length bytes) bytes

unfoldable pub transcode_utf16_to_utf8 : List ℕ → Transcoding
unfolding each_code_point decode_utf16_code_point encode_utf8_code_point
transcode_utf16_to_utf8 units =
    each_code_point decode_utf16_code_point encode_utf8_code_point (length units) units
