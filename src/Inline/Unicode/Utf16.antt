-- ===== src/Inline/Unicode/Utf16.antt =====
-- Encoding and decoding of one code point in 16-bit units.
use wavm.Prelude.{
  ℕ, ◌+◌, ◌-◌, ◌*◌, ◌/◌, ◌%◌, ◌≤◌, ◌<◌, ◌≡◌, ◌⊎◌, inl, inr, List, [], ◌∷◌, ◌++◌, ltb, arith,
  Bool-cases,
}
use wavm.Inline.Unicode.{decoded, encode_utf16_code_point, decode_utf16_code_point}
use wavm.Inline.Unicode.Utf8.{IsScalar}

-- What is encoded of a scalar value in UTF-16 is decoded to it, and nothing more is read.
pub decode_utf16-encode_utf16 :
    (c : ℕ) (rest : List ℕ)
    → IsScalar c
    → decode_utf16_code_point (encode_utf16_code_point c ++ rest) ≡ decoded c rest
unfolding decode_utf16_code_point encode_utf16_code_point
decode_utf16-encode_utf16 c rest h = elim (Bool-cases (ltb c 65536)) [
  | inl one ↦ rw one (one_case rest (ground arith) h.no_surrogate)
  | inr two ↦ rw two (two_case (ground arith) h.bound)
]
  where
    one_case :
        (rest : List ℕ)
        → c < 65536
        → (c < 55296) ⊎ (57344 ≤ c)
        → decode_utf16_code_point (c % 65536 ∷ rest) ≡ decoded c rest
    one_case [] b n = let e : c % 65536 ≡ c = omega arith in rw e (ground arith)
    one_case (u ∷ rest) b n = let e : c % 65536 ≡ c = omega arith in rw e (ground arith)

    two_case :
        65536 ≤ c
        → c < 1114112
        → decode_utf16_code_point
            ((55296 + (c - 65536) / 1024 % 1024) ∷ (56320 + (c - 65536) % 1024) ∷ rest)
          ≡ decoded c rest
    two_case a b =
        let e : ((55296 + (c - 65536) / 1024 % 1024) - 55296) * 1024
              + ((56320 + (c - 65536) % 1024) - 56320)
              + 65536
            ≡ c =
          omega arith in
        ground (arith, e)
