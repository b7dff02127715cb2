-- ===== src/Inline/Unicode/Utf8.antt =====
-- Encoding and decoding of one code point in bytes.
use wavm.Prelude.{
  ℕ, ◌+◌, ◌*◌, ◌/◌, ◌%◌, ◌≤◌, ◌<◌, ◌≡◌, ◌⊎◌, inl, inr, List, ◌∷◌, ◌++◌, ltb, arith, Bool-cases,
}
use wavm.Inline.Unicode.{decoded, encode_utf8_code_point, decode_utf8_code_point}

-- A code point that is no surrogate.
pub record IsScalar (c : ℕ) : Type 0 where
  pub bound : c < 1114112
  pub no_surrogate : (c < 55296) ⊎ (57344 ≤ c)

two_bytes : (c : ℕ) → 128 ≤ c → c < 2048 → (192 + c / 64 % 32) % 32 * 64 + (128 + c % 64) % 64 ≡ c
two_bytes c a b = omega arith

three_bytes :
    (c : ℕ)
    → c < 65536
    → (224 + c / 4096 % 16) % 16 * 4096 + (128 + c / 64 % 64) % 64 * 64 + (128 + c % 64) % 64 ≡ c
three_bytes c b = omega arith

four_bytes :
    (c : ℕ)
    → c < 1114112
    → (240 + c / 262144 % 8) % 8 * 262144
        + (128 + c / 4096 % 64) % 64 * 4096
        + (128 + c / 64 % 64) % 64 * 64
        + (128 + c % 64) % 64
      ≡ c
four_bytes c b = omega arith

-- What is encoded of a scalar value is decoded to it, and nothing more is read.
pub decode_utf8-encode_utf8 :
    (c : ℕ) (rest : List ℕ)
    → IsScalar c
    → decode_utf8_code_point (encode_utf8_code_point c ++ rest) ≡ decoded c rest
unfolding decode_utf8_code_point encode_utf8_code_point
decode_utf8-encode_utf8 c rest h = elim (Bool-cases (ltb c 128)) [
  | inl one ↦ ground arith
  | inr wide ↦ elim (Bool-cases (ltb c 2048)) [
    | inl two ↦ rw (wide, two) (two_case (ground arith) (ground arith))
    | inr wider ↦ elim (Bool-cases (ltb c 65536)) [
      | inl three ↦
          rw (wide, wider, three) (three_case (ground arith) (ground arith) h.no_surrogate)
      | inr widest ↦ rw (wide, wider, widest) (four_case (ground arith) h.bound)
    ]
  ]
]
  where
    two_case :
        128 ≤ c
        → c < 2048
        → decode_utf8_code_point ((192 + c / 64 % 32) ∷ (128 + c % 64) ∷ rest) ≡ decoded c rest
    two_case a b = let e = two_bytes c a b in ground (arith, e)

    three_case :
        2048 ≤ c
        → c < 65536
        → (c < 55296) ⊎ (57344 ≤ c)
        → decode_utf8_code_point
            ((224 + c / 4096 % 16) ∷ (128 + c / 64 % 64) ∷ (128 + c % 64) ∷ rest)
          ≡ decoded c rest
    three_case a b n = let e = three_bytes c b in ground (arith, e)

    four_case :
        65536 ≤ c
        → c < 1114112
        → decode_utf8_code_point (
            (240 + c / 262144 % 8)
            ∷ (128 + c / 4096 % 64)
            ∷ (128 + c / 64 % 64)
            ∷ (128 + c % 64)
            ∷ rest)
          ≡ decoded c rest
    four_case a b = let e = four_bytes c b in ground (arith, e)
