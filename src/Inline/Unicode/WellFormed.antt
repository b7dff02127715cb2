-- ===== src/Inline/Unicode/WellFormed.antt =====
-- What the UTF-8 decoder accepts.
use wavm.Prelude.{
  Bool, ◌&&◌, subst, ℕ, ◌+◌, ◌*◌, ◌/◌, ◌%◌, ◌≤◌, ◌<◌, ◌≡◌, ◌⊎◌, inl, inr, refl, true, false, List,
  [], ◌∷◌, ◌++◌, ltb, arith, Bool-cases, if◌then◌else◌,
}
use wavm.Inline.Unicode.{
  Decoding, decoded, malformed, decode_two, decode_three, decode_four, between, is_continuation,
  second_of_three, second_of_four, encode_utf8_code_point, decode_utf8_code_point,
}
use wavm.Inline.Unicode.Utf8.{IsScalar}

decoded-injective :
    {c d : ℕ} {rest left : List ℕ} → decoded c rest ≡ decoded d left → (c ≡ d) × (rest ≡ left)
decoded-injective e = (cc, cc)

bounds : (low high b : ℕ) → between low high b ≡ true → (low ≤ b) × (b ≤ high)
bounds low high b h = (ground arith, ground arith)

and_true : (a b : Bool) → a && b ≡ true → (a ≡ true) × (b ≡ true)
and_true a b h = ground arith

not_decoded :
    {A : Type 0} (b : Bool) (d : Decoding) (c : ℕ) (rest : List ℕ)
    → b ≡ false
    → (if b then d else malformed) ≡ decoded c rest
    → A
not_decoded true d c rest n e = cc
not_decoded false d c rest n e = cc

encode_one : (c : ℕ) → ltb c 128 ≡ true → IsScalar c × (encode_utf8_code_point c ≡ c ∷ [])
unfolding encode_utf8_code_point
encode_one c small =
    (record { bound = ground arith; no_surrogate = inl (ground arith) }, rw small refl)

-- Encoding what two, three or four bytes in the decoder's ranges stand for.
encode_two :
    (b0 b1 c : ℕ)
    → 194 ≤ b0
    → b0 ≤ 223
    → 128 ≤ b1
    → b1 ≤ 191
    → b0 % 32 * 64 + b1 % 64 ≡ c
    → IsScalar c × (encode_utf8_code_point c ≡ b0 ∷ b1 ∷ [])
unfolding encode_utf8_code_point
encode_two b0 b1 c p q r t e =
    let low : 128 ≤ c = omega arith in
    let high : c < 2048 = omega arith in
    let d0 : 192 + c / 64 % 32 ≡ b0 = omega arith in
    let d1 : 128 + c % 64 ≡ b1 = omega arith in
    let first : ltb c 128 ≡ false = ground arith in
    let second : ltb c 2048 ≡ true = ground arith in
    (
      record { bound = omega arith; no_surrogate = inl (omega arith) },
      rw (first, second, d0, d1) refl,
    )

encode_three :
    (b0 b1 b2 c : ℕ)
    → 224 ≤ b0
    → b0 ≤ 239
    → second_of_three b0 b1 ≡ true
    → 128 ≤ b2
    → b2 ≤ 191
    → b0 % 16 * 4096 + b1 % 64 * 64 + b2 % 64 ≡ c
    → IsScalar c × (encode_utf8_code_point c ≡ b0 ∷ b1 ∷ b2 ∷ [])
unfolding encode_utf8_code_point
encode_three b0 b1 b2 c p q second r t e =
    let b : (128 ≤ b1) × (b1 ≤ 191) = ground arith in
    let no_overlong : b0 ≡ 224 → 160 ≤ b1 = ground arith in
    let surrogate : b0 ≡ 237 → b1 ≤ 159 = ground arith in
    let low : 2048 ≤ c = grind arith in
    let high : c < 65536 = omega (arith, b.0, b.1) in
    let d0 : 224 + c / 4096 % 16 ≡ b0 = omega (arith, b.0, b.1) in
    let d1 : 128 + c / 64 % 64 ≡ b1 = omega (arith, b.0, b.1) in
    let d2 : 128 + c % 64 ≡ b2 = omega (arith, b.0, b.1) in
    let first : ltb c 128 ≡ false = ground arith in
    let second : ltb c 2048 ≡ false = ground arith in
    let third : ltb c 65536 ≡ true = ground arith in
    let no_surrogate : (c < 55296) ⊎ (57344 ≤ c) = grind (arith, b.0, b.1) in
    (
      record { bound = omega arith; no_surrogate = no_surrogate },
      rw (first, second, third, d0, d1, d2) refl,
    )

encode_four :
    (b0 b1 b2 b3 c : ℕ)
    → 240 ≤ b0
    → b0 ≤ 244
    → second_of_four b0 b1 ≡ true
    → 128 ≤ b2
    → b2 ≤ 191
    → 128 ≤ b3
    → b3 ≤ 191
    → b0 % 8 * 262144 + b1 % 64 * 4096 + b2 % 64 * 64 + b3 % 64 ≡ c
    → IsScalar c × (encode_utf8_code_point c ≡ b0 ∷ b1 ∷ b2 ∷ b3 ∷ [])
unfolding encode_utf8_code_point
encode_four b0 b1 b2 b3 c p q range r t u w e =
    let b : (128 ≤ b1) × (b1 ≤ 191) = ground arith in
    let no_overlong : b0 ≡ 240 → 144 ≤ b1 = ground arith in
    let top : b0 ≡ 244 → b1 ≤ 143 = ground arith in
    let low : 65536 ≤ c = grind (arith, b.0, b.1) in
    let high : c < 1114112 = grind (arith, b.0, b.1) in
    let d0 : 240 + c / 262144 % 8 ≡ b0 = omega (arith, b.0, b.1) in
    let d1 : 128 + c / 4096 % 64 ≡ b1 = omega (arith, b.0, b.1) in
    let d2 : 128 + c / 64 % 64 ≡ b2 = omega (arith, b.0, b.1) in
    let d3 : 128 + c % 64 ≡ b3 = omega (arith, b.0, b.1) in
    let first : ltb c 128 ≡ false = ground arith in
    let second : ltb c 2048 ≡ false = ground arith in
    let third : ltb c 65536 ≡ false = ground arith in
    (
      record { bound = high; no_surrogate = inr (omega (arith, low)) },
      rw (first, second, third, d0, d1, d2, d3) refl,
    )

-- What is decoded is a scalar value, and what was read is its encoding: no overlong form and no
-- surrogate is accepted.
pub decode_utf8-decoded :
    (bytes : List ℕ) (c : ℕ) (rest : List ℕ)
    → decode_utf8_code_point bytes ≡ decoded c rest
    → IsScalar c × (bytes ≡ encode_utf8_code_point c ++ rest)
unfolding decode_utf8_code_point
decode_utf8-decoded [] c rest h = cc
decode_utf8-decoded (b0 ∷ bytes) c rest h = elim (Bool-cases (ltb b0 128)) [
  | inl one ↦ let (x, r) = decoded-injective (rw one at h) in one_case one x r
  | inr wide ↦ elim (Bool-cases (between 194 223 b0)) [
    | inl two ↦ two_case bytes two (rw (wide, two) at h)
    | inr wider ↦ elim (Bool-cases (between 224 239 b0)) [
      | inl three ↦ three_case bytes three (rw (wide, wider, three) at h)
      | inr widest ↦ elim (Bool-cases (between 240 244 b0)) [
        | inl four ↦ four_case bytes four (rw (wide, wider, widest, four) at h)
        | inr bad ↦ ground arith
      ]
    ]
  ]
]
  where
    one_case :
        ltb b0 128 ≡ true
        → b0 ≡ c
        → bytes ≡ rest
        → IsScalar c × (b0 ∷ bytes ≡ encode_utf8_code_point c ++ rest)
    one_case t x r =
        let (scalar, k) = encode_one c (subst (λ n. ltb n 128 ≡ true) x t) in
        (scalar, rw (k, x, r) refl)

    two_case :
        (bytes : List ℕ)
        → between 194 223 b0 ≡ true
        → decode_two b0 bytes ≡ decoded c rest
        → IsScalar c × (b0 ∷ bytes ≡ encode_utf8_code_point c ++ rest)
    two_case [] t e = cc
    two_case (b1 ∷ bytes) t e = elim (Bool-cases (is_continuation b1)) [
      | inl y ↦
          let (x, r) = decoded-injective (rw y at e) in
          let (scalar, k) =
            encode_two b0 b1 c (ground arith) (ground arith) (ground arith) (ground arith) x in
          (scalar, rw (k, r) refl)
      | inr n ↦ ground arith
    ]

    three_case :
        (bytes : List ℕ)
        → between 224 239 b0 ≡ true
        → decode_three b0 bytes ≡ decoded c rest
        → IsScalar c × (b0 ∷ bytes ≡ encode_utf8_code_point c ++ rest)
    three_case [] t e = cc
    three_case (b1 ∷ []) t e = cc
    three_case (b1 ∷ b2 ∷ bytes) t e =
        elim (Bool-cases (second_of_three b0 b1 && is_continuation b2)) [
          | inl y ↦
              let (x, r) = decoded-injective (rw y at e) in
              let (s, y2) = and_true (second_of_three b0 b1) _ y in
              let (p0, q0) = bounds 224 239 b0 t in
              let (p2, q2) = bounds 128 191 b2 y2 in
              let (scalar, k) = encode_three b0 b1 b2 c p0 q0 s p2 q2 x in (scalar, rw (k, r) refl)
          | inr n ↦ not_decoded _ _ c rest n e
        ]

    four_case :
        (bytes : List ℕ)
        → between 240 244 b0 ≡ true
        → decode_four b0 bytes ≡ decoded c rest
        → IsScalar c × (b0 ∷ bytes ≡ encode_utf8_code_point c ++ rest)
    four_case [] t e = cc
    four_case (b1 ∷ []) t e = cc
    four_case (b1 ∷ b2 ∷ []) t e = cc
    four_case (b1 ∷ b2 ∷ b3 ∷ bytes) t e =
        elim (Bool-cases (second_of_four b0 b1 && is_continuation b2 && is_continuation b3)) [
          | inl y ↦
              let (x, r) = decoded-injective (rw y at e) in
              let (y', y3) =
                and_true (second_of_four b0 b1 && is_continuation b2) (is_continuation b3) y in
              let (s, y2) = and_true (second_of_four b0 b1) (is_continuation b2) y' in
              let (p0, q0) = bounds 240 244 b0 t in
              let (p2, q2) = bounds 128 191 b2 y2 in
              let (p3, q3) = bounds 128 191 b3 y3 in
              let (scalar, k) = encode_four b0 b1 b2 b3 c p0 q0 s p2 q2 p3 q3 x in
              (scalar, rw (k, r) refl)
          | inr n ↦ not_decoded _ _ c rest n e
        ]
