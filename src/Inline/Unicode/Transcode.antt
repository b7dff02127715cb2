-- ===== src/Inline/Unicode/Transcode.antt =====
-- The loops over the code points of a string.
use wavm.Prelude.{
  ℕ, zero, suc, ◌+◌, ◌≤◌, ◌<◌, ◌≡◌, ◌↔◌, ◌∙◌, ap, sym, refl, List, [], ◌∷◌, ◌++◌, length,
  length-append, arith,
}
use wavm.Inline.Unicode.{
  Decoding, decoded, malformed, overread, Transcoding, stopped, write, each_code_point,
  encode_utf8_code_point, decode_utf8_code_point, encode_utf16_code_point, decode_utf16_code_point,
  validate_utf8_string, transcode_utf8_to_utf16, transcode_utf16_to_utf8,
}
use wavm.Inline.Unicode.Utf8.{IsScalar, decode_utf8-encode_utf8}
use wavm.Inline.Unicode.WellFormed.{decode_utf8-decoded}
use wavm.Inline.Unicode.Utf16.{decode_utf16-encode_utf16}

abbrev pub Scalars : List ℕ → Type 0
Scalars [] = Unit
Scalars (c ∷ code_points) = IsScalar c × Scalars code_points

-- The encoding of a sequence of code points.
unfoldable pub encode_all : (ℕ → List ℕ) → List ℕ → List ℕ
encode_all encode [] = []
encode_all encode (c ∷ code_points) = encode c ++ encode_all encode code_points

-- A loop whose decoder inverts an encoder `source` writes the encoding of every code point.
module _ (decode : List ℕ → Decoding) (source target : ℕ → List ℕ)
    (inverse : (c : ℕ) (rest : List ℕ) → IsScalar c → decode (source c ++ rest) ≡ decoded c rest)
    (nonempty : (c : ℕ) → 0 < length (source c)) where
  each_code_point-encode_all :
      (fuel : ℕ) (code_points : List ℕ)
      → Scalars code_points
      → length (encode_all source code_points) ≤ fuel
      → each_code_point decode target fuel (encode_all source code_points)
        ≡ stopped (encode_all target code_points) []
  unfolding each_code_point encode_all
  each_code_point-encode_all fuel [] h n = refl
  each_code_point-encode_all fuel (c ∷ code_points) h n =
      step fuel (source c) (λ fuel k. each_code_point-encode_all fuel code_points h.1 k)
        (nonempty c) (inverse c _ h.0)
        (omega (arith, length-append (source c) (encode_all source code_points)))
    where
      step :
          (fuel : ℕ) (chars : List ℕ)
          → ((fuel : ℕ)
              → length (encode_all source code_points) ≤ fuel
              → each_code_point decode target fuel (encode_all source code_points)
                ≡ stopped (encode_all target code_points) [])
          → 0 < length chars
          → decode (chars ++ encode_all source code_points)
            ≡ decoded c (encode_all source code_points)
          → length chars + length (encode_all source code_points) ≤ fuel
          → each_code_point decode target fuel (chars ++ encode_all source code_points)
            ≡ stopped (target c ++ encode_all target code_points) []
      step fuel [] ih p e n = absurd (omega arith)
      step zero (b ∷ chars) ih p e n = absurd (omega arith)
      step (suc fuel) (b ∷ chars) ih p e n = rw (e, ih fuel (omega arith)) refl

length-encode_utf8 : (c : ℕ) → 0 < length (encode_utf8_code_point c)
unfolding encode_utf8_code_point
length-encode_utf8 c = ground arith

length-encode_utf16 : (c : ℕ) → 0 < length (encode_utf16_code_point c)
unfolding encode_utf16_code_point
length-encode_utf16 c = ground arith

-- Transcoding the UTF-8 encoding of scalar values to UTF-16 takes the whole string and writes
-- their UTF-16 encoding, and transcoding that back gives the UTF-8 encoding again.
pub transcode_round_trip :
    (code_points : List ℕ)
    → Scalars code_points
    → (transcode_utf8_to_utf16 (encode_all encode_utf8_code_point code_points)
        ≡ stopped (encode_all encode_utf16_code_point code_points) [])
      × (transcode_utf16_to_utf8 (encode_all encode_utf16_code_point code_points)
          ≡ stopped (encode_all encode_utf8_code_point code_points) [])
unfolding transcode_utf8_to_utf16 transcode_utf16_to_utf8
transcode_round_trip code_points h = (
  each_code_point-encode_all decode_utf8_code_point encode_utf8_code_point encode_utf16_code_point
      decode_utf8-encode_utf8 length-encode_utf8 _ code_points h (omega arith),
  each_code_point-encode_all decode_utf16_code_point encode_utf16_code_point encode_utf8_code_point
      decode_utf16-encode_utf16 length-encode_utf16 _ code_points h (omega arith),
)

nothing_written : (code_points : List ℕ) → encode_all (λ c. []) code_points ≡ []
unfolding encode_all
nothing_written [] = refl
nothing_written (c ∷ code_points) = nothing_written code_points

write_nothing : (t : Transcoding) → write [] t ≡ t
write_nothing (stopped out rest) = refl
write_nothing overread = refl

abbrev pub IsUtf8 : List ℕ → Type 0
IsUtf8 bytes =
    (code_points : List ℕ) × Scalars code_points
    × (bytes ≡ encode_all encode_utf8_code_point code_points)

validated :
    (fuel : ℕ) (bytes : List ℕ)
    → each_code_point decode_utf8_code_point (λ c. []) fuel bytes ≡ stopped [] []
    → IsUtf8 bytes
unfolding each_code_point encode_all
validated fuel [] h = ([], tt, refl)
validated zero (b ∷ chars) h = cc
validated (suc fuel) (b ∷ chars) h =
    go (decode_utf8_code_point (b ∷ chars)) refl (λ rest k. validated fuel rest k) h
  where
    go :
        (d : Decoding)
        → decode_utf8_code_point (b ∷ chars) ≡ d
        → ((rest : List ℕ)
            → each_code_point decode_utf8_code_point (λ c. []) fuel rest ≡ stopped [] []
            → IsUtf8 rest)
        → elim d [
          | decoded c rest ↦ write [] (each_code_point decode_utf8_code_point (λ c. []) fuel rest)
          | malformed ↦ stopped [] (b ∷ chars)
          | overread ↦ overread
        ]
          ≡ stopped [] []
        → IsUtf8 (b ∷ chars)
    go (decoded c rest) e ih k =
        let (scalar, r) = decode_utf8-decoded (b ∷ chars) c rest e in
        let (code_points, scalars, q) = ih rest (sym (write_nothing _) ∙ k) in
        (c ∷ code_points, (scalar, scalars), r ∙ ap (λ l. encode_utf8_code_point c ++ l) q)
    go malformed e ih k = cc
    go overread e ih k = cc

-- A string is validated to its end if and only if it is the UTF-8 encoding of scalar values.
pub validate_utf8_string_iff :
    (bytes : List ℕ) → (validate_utf8_string bytes ≡ stopped [] []) ↔ IsUtf8 bytes
unfolding validate_utf8_string
validate_utf8_string_iff bytes = (validated (length bytes) bytes, back)
  where
    back :
        IsUtf8 bytes
        → each_code_point decode_utf8_code_point (λ c. []) (length bytes) bytes ≡ stopped [] []
    back (code_points, h, e) = rw e (
        each_code_point-encode_all decode_utf8_code_point encode_utf8_code_point (λ c. [])
          decode_utf8-encode_utf8 length-encode_utf8 _ code_points h (omega arith)
        ∙ ap (λ out. stopped out []) (nothing_written code_points))
