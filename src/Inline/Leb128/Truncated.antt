-- ===== src/Inline/Leb128/Truncated.antt =====
-- A number of which the last bytes are missing.
use wavm.Prelude.{
  ℕ, zero, suc, ◌≡◌, ◌≢◌, refl, ap, sym, ◌∙◌, true, false, List, [], ◌∷◌, ◌++◌, leb, Bool-cases,
  inl, inr, ℤ, arith,
}
use mathlib.Core.List.{append-nil}
use wavm.Inline.Serialization.{FatalSerializationException, Read, ok, fatal}
use wavm.Inline.Serialization.Reads.{RefusesPart, no_part}
use wavm.Inline.Leb128.{VarInt, read_digits, check_read, check_digits, max_bytes, read_var_int}

abbrev joined : ℕ → Read (List ℕ) → Read (List ℕ)
joined b (ok digits rest) = ok (b ∷ digits) rest
joined b (fatal e) = fatal e

joined_ok :
    (b : ℕ) (r : Read (List ℕ)) (digits : List ℕ)
    → joined b r ≡ ok digits []
    → (others : List ℕ) × (r ≡ ok others [])
joined_ok b (ok others []) digits h = (others, refl)
joined_ok b (ok others (c ∷ rest)) digits h = absurd cc
joined_ok b (fatal e) digits h = absurd cc

read_digits-suc_more :
    (k b : ℕ) (s : List ℕ)
    → leb 128 b ≡ true
    → read_digits (suc k) (b ∷ s) ≡ joined b (read_digits k s)
unfolding read_digits
read_digits-suc_more k b s e = rw e (same (read_digits k s))
  where
    same :
        (r : Read (List ℕ))
        → elim r [ ok digits rest ↦ ok (b ∷ digits) rest | fatal e ↦ fatal e ] ≡ joined b r
    same (ok digits rest) = refl
    same (fatal e) = refl

read_digits-suc_last :
    (k b : ℕ) (s : List ℕ) → leb 128 b ≡ false → read_digits (suc k) (b ∷ s) ≡ ok (b ∷ []) s
unfolding read_digits
read_digits-suc_last k b s e = rw e refl

-- The loop that reads asks for each byte of a number.
read_digits_truncated :
    (n : ℕ) (s more digits : List ℕ)
    → read_digits n (s ++ more) ≡ ok digits []
    → more ≢ []
    → read_digits n s ≡ fatal FatalSerializationException.expected_data
read_digits_truncated zero s more digits h n =
    let e : s ++ more ≡ [] = unfold read_digits in cc in absurd (no_part s more e n)
read_digits_truncated (suc k) [] more digits h n = unfold read_digits in refl
read_digits_truncated (suc k) (b ∷ s) more digits h n = elim (Bool-cases (leb 128 b)) [
  | inl e ↦
      let (others, q) =
        joined_ok b (read_digits k (s ++ more)) digits
          (sym (read_digits-suc_more k b (s ++ more) e) ∙ h) in
      read_digits-suc_more k b s e ∙ ap (joined b) (read_digits_truncated k s more others q n)
  | inr e ↦
      let f : ok (b ∷ []) (s ++ more) ≡ ok digits [] =
        sym (read_digits-suc_last k b (s ++ more) e) ∙ h in
      let g : s ++ more ≡ [] = cc in absurd (no_part s more g n)
]

-- A number that was read to the end of the stream.
checked :
    (f : VarInt) (r : Read (List ℕ)) (value : ℤ)
    → check_read f r ≡ ok value []
    → (digits : List ℕ) × (r ≡ ok digits [])
checked f (fatal e) value h = absurd cc
checked f (ok digits []) value h = (digits, refl)
checked f (ok digits (c ∷ rest)) value h = absurd (no_end f digits c rest value h)
  where
    no_end :
        (f : VarInt) (digits : List ℕ) (c : ℕ) (rest : List ℕ) (value : ℤ)
        → check_digits f digits (c ∷ rest) ≡ ok value []
        → ⊥
    no_end f digits c rest value h = ground (arith, h)

pub read_var_int_truncated :
    (f : VarInt) (value : ℤ) (out : List ℕ)
    → ((rest : List ℕ) → read_var_int f (out ++ rest) ≡ ok value rest)
    → RefusesPart (read_var_int f) out
unfolding read_var_int
read_var_int_truncated f value out r s more h n =
    let e : read_var_int f (s ++ more) ≡ ok value [] =
      ap (read_var_int f) (h ∙ sym (append-nil out)) ∙ r [] in
    let (digits, q) = checked f (read_digits (max_bytes f.max_bits) (s ++ more)) value e in
    ap (check_read f) (read_digits_truncated (max_bytes f.max_bits) s more digits q n)
