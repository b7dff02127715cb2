-- ===== src/Tests/Text.antt =====
-- The euro sign and a musical symbol outside the basic plane.
use wavm.Prelude.{◌≡◌, ◌↔◌, refl, [], ◌∷◌, inl, inr, arith}
use wavm.Inline.Unicode.{
  decoded, stopped, Decoding, encode_utf8_code_point, decode_utf8_code_point,
  encode_utf16_code_point, decode_utf16_code_point, validate_utf8_string, transcode_utf8_to_utf16,
  transcode_utf16_to_utf8,
}
use wavm.Inline.Unicode.Transcode.{
  IsUtf8, encode_all, transcode_round_trip, validate_utf8_string_iff,
}
use wavm.Inline.Unicode.Utf16.{decode_utf16-encode_utf16}
use wavm.Inline.Unicode.Utf8.{IsScalar, decode_utf8-encode_utf8}
use wavm.Inline.Unicode.WellFormed.{decode_utf8-decoded}
use wavm.Prelude.{◌++◌}

euro : encode_utf8_code_point 8364 ≡ 226 ∷ 130 ∷ 172 ∷ []
unfolding encode_utf8_code_point
euro = refl

-- The second unit of a pair is read behind the end of the range.
truncated_pair : decode_utf16_code_point (55348 ∷ []) ≡ Decoding.overread
unfolding decode_utf16_code_point
truncated_pair = refl

euro-IsScalar : IsScalar 8364
euro-IsScalar = record { bound = omega arith; no_surrogate = inl (omega arith) }

clef-IsScalar : IsScalar 119070
clef-IsScalar = record { bound = omega arith; no_surrogate = inr (omega arith) }

decode_utf8-encode_utf8_example :
    decode_utf8_code_point (encode_utf8_code_point 8364 ++ (65 ∷ [])) ≡ decoded 8364 (65 ∷ [])
decode_utf8-encode_utf8_example = decode_utf8-encode_utf8 8364 (65 ∷ []) euro-IsScalar

decode_euro : decode_utf8_code_point (226 ∷ 130 ∷ 172 ∷ 65 ∷ []) ≡ decoded 8364 (65 ∷ [])
unfolding decode_utf8_code_point
decode_euro = refl

decode_utf8-decoded_example :
    IsScalar 8364 × (226 ∷ 130 ∷ 172 ∷ 65 ∷ [] ≡ encode_utf8_code_point 8364 ++ (65 ∷ []))
decode_utf8-decoded_example =
    decode_utf8-decoded (226 ∷ 130 ∷ 172 ∷ 65 ∷ []) 8364 (65 ∷ []) decode_euro

decode_utf16-encode_utf16_example :
    decode_utf16_code_point (encode_utf16_code_point 119070 ++ (65 ∷ [])) ≡ decoded 119070 (65 ∷ [])
decode_utf16-encode_utf16_example = decode_utf16-encode_utf16 119070 (65 ∷ []) clef-IsScalar

transcode_round_trip_example :
    (transcode_utf8_to_utf16 (encode_all encode_utf8_code_point (8364 ∷ 119070 ∷ []))
      ≡ stopped (encode_all encode_utf16_code_point (8364 ∷ 119070 ∷ [])) [])
    × (transcode_utf16_to_utf8 (encode_all encode_utf16_code_point (8364 ∷ 119070 ∷ []))
        ≡ stopped (encode_all encode_utf8_code_point (8364 ∷ 119070 ∷ [])) [])
transcode_round_trip_example =
    transcode_round_trip (8364 ∷ 119070 ∷ []) (euro-IsScalar, (clef-IsScalar, tt))

validate_utf8_string_iff_example :
    (validate_utf8_string (226 ∷ 130 ∷ 172 ∷ 65 ∷ []) ≡ stopped [] [])
    ↔ IsUtf8 (226 ∷ 130 ∷ 172 ∷ 65 ∷ [])
validate_utf8_string_iff_example = validate_utf8_string_iff (226 ∷ 130 ∷ 172 ∷ 65 ∷ [])
