-- ===== src/Wasm/Sections/Errors.antt =====
-- Sections that end too early or go on too long.
use wavm.Prelude.{ℕ, ◌^◌, ◌<◌, ◌≡◌, ◌≢◌, refl, ap, subst, sym, ◌∙◌, List, [], ◌∷◌, ◌++◌, length}
use mathlib.Core.List.{append-nil}
use wavm.Ir.Types.{FunctionType}
use wavm.Inline.Serialization.{
  FatalSerializationException, Read, Reader, ok, fatal, ◌>>=◌, Written, bytes, ◌<>◌, next_byte,
  advance,
}
use wavm.Inline.Serialization.Reads.{Reads, Reads-bind, Reads-advance, Every, >>=-ok}
use wavm.Inline.Leb128.Formats.{
  var_uint32, write_uint, read_uint, write_array, Reads-uint32, Reads-array,
}
use wavm.Wasm.Definitions.{write_function_type}
use wavm.Wasm.Definitions.RoundTrip.{IsFunction, Reads-function_type}
use wavm.Wasm.Sections.{
  SectionId, section_code, write_section, ended, read_section, read_type_section,
}
use wavm.Wasm.Sections.RoundTrip.{after_id, IsSized}

abbrev more_data : {A : Type 0} → Read A
more_data = fatal FatalSerializationException.section_contained_more_data

ended_more : {A : Type 0} (a : A) (extra s : List ℕ) → extra ≢ [] → ended (ok a extra) s ≡ more_data
ended_more a [] s n = absurd (n refl)
ended_more a (b ∷ extra) s n = refl

-- The size and the bytes of a section, before its contents are looked at.
section_bytes :
    (contents : List ℕ)
    → length contents < 2 ^ 32
    → Reads
        (write_uint var_uint32 (length contents) <> bytes contents)
        (read_uint var_uint32 >>= advance)
        contents
section_bytes contents h = Reads-bind _ (Reads-uint32 (length contents) h) (Reads-advance contents)

-- What a section is, byte for byte.
framed :
    (id : SectionId) (w : Written) (contents : List ℕ)
    → w ≡ bytes contents
    → (h : length contents < 2 ^ 32)
    → write_section id w ≡ bytes (section_code id ∷ (section_bytes contents h).out)
framed id w contents e h =
    ap (write_section id) e
    ∙ ap (λ v. bytes (section_code id ∷ []) <> v) (section_bytes contents h).writes

overlong :
    {A : Type 0} {w : Written} {r : Reader A} {a : A} (id : SectionId)
    → (x : Reads w r a) → (extra out : List ℕ) → extra ≢ []
    → IsSized (w <> bytes extra)
    → write_section id (w <> bytes extra) ≡ bytes out
    → after_id (read_section r) out ≡ more_data
unfolding next_byte
overlong {w} {r} {a} id x extra out n s e =
    let contents = x.out ++ extra in
    let f : w <> bytes extra ≡ bytes contents = ap (λ v. v <> bytes extra) x.writes in
    let z = section_bytes contents (s contents f) in
    let g : bytes out ≡ bytes (section_code id ∷ z.out) =
      sym e ∙ framed id (w <> bytes extra) contents f (s contents f) in
    let k : out ≡ section_code id ∷ z.out = cc in
    let q : (read_uint var_uint32 >>= advance) z.out ≡ ok contents [] =
      subst (λ l. (read_uint var_uint32 >>= advance) l ≡ ok contents []) (append-nil z.out)
        (z.reads []) in
    ap (after_id (read_section r)) k
    ∙ >>=-ok (read_uint var_uint32 >>= advance) (λ section. ended (r section)) q
    ∙ ap (λ v. ended v []) (x.reads extra)
    ∙ ended_more a extra [] n

-- A type section of which the size counts bytes after the last type is refused.
pub read_type_section_overlong :
    (types : List FunctionType) (extra out : List ℕ)
    → length types < 2 ^ 32
    → Every IsFunction types
    → extra ≢ []
    → IsSized (write_array write_function_type types <> bytes extra)
    → write_section SectionId.type (write_array write_function_type types <> bytes extra)
      ≡ bytes out
    → after_id read_type_section out ≡ fatal FatalSerializationException.section_contained_more_data
read_type_section_overlong types extra out l h n s e =
    overlong SectionId.type (Reads-array Reads-function_type types l h) extra out n s e
