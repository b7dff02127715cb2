-- ===== src/Wasm/Definitions/RoundTrip.antt =====
-- Names, exports and function types as they are written and read back.
use wavm.Prelude.{
  ℕ, ◌^◌, ◌<◌, ◌≡◌, ◌≢◌, refl, ap, true, List, [], ◌∷◌, length, if◌then◌else◌, arith,
}
use wavm.Ir.Types.{CallingConvention, FunctionType, ExternKind}
use wavm.Ir.Module.{Name, Export}
use wavm.Inline.Serialization.{
  FatalSerializationException, ok, ◌>>=◌, pure, throw, bytes, failed, ◌<>◌, next_byte,
}
use wavm.Inline.Serialization.Reads.{
  no_part, Reads, Reads-bind, Reads-map, Reads-after, Reads-next_byte, Reads-advance,
}
use wavm.Inline.Leb128.Formats.{var_uint7, write_uint, Reads-uint, Reads-uint32}
use wavm.Wasm.Types.RoundTrip.{IsEncodable, Reads-type_tuple}
use wavm.Wasm.Definitions.{
  is_valid_utf8, write_if_valid_utf8, read_if_valid_utf8, write_string, read_string, decode_kind,
  write_kind, read_kind, write_export, read_export, decode_calling_convention,
  write_calling_convention, read_calling_convention, encode_calling_convention, write_convention,
  read_convention, write_function_type, read_function_type,
}

pub Reads-string :
    (string : Name) → length string < 2 ^ 32 → Reads (write_string string) read_string string
Reads-string string h = Reads-bind _ (Reads-uint32 (length string) h) (Reads-advance string)

Reads-if_valid :
    (string : Name)
    → is_valid_utf8 string ≡ true
    → Reads (write_if_valid_utf8 string) (read_if_valid_utf8 string) string
Reads-if_valid string h = record {
  out = [];
  writes = ap (λ b. if b then bytes [] else failed FatalSerializationException.invalid_utf8) h;
  reads = λ rest.
      ap (λ b. (if b then pure string else throw FatalSerializationException.invalid_utf8) rest) h;
  truncated = λ s more e n. absurd (no_part s more e n);
}

encoded :
    (n : ℕ) (kind : ExternKind)
    → n < 2 ^ 7
    → ((s : List ℕ) → decode_kind n s ≡ ok kind s)
    → Reads (write_uint var_uint7 n) read_kind kind
encoded n kind h decoded =
    Reads-after _ (Reads-uint 8 7 n (omega arith) (omega arith) (omega arith) h) decoded

pub Reads-kind :
    (kind : ExternKind) → kind ≢ ExternKind.invalid → Reads (write_kind kind) read_kind kind
Reads-kind ExternKind.invalid h = absurd (h refl)
Reads-kind ExternKind.function h = encoded 0 ExternKind.function (omega arith) (λ s. refl)
Reads-kind ExternKind.table h = encoded 1 ExternKind.table (omega arith) (λ s. refl)
Reads-kind ExternKind.memory h = encoded 2 ExternKind.memory (omega arith) (λ s. refl)
Reads-kind ExternKind.global h = encoded 3 ExternKind.global (omega arith) (λ s. refl)
Reads-kind ExternKind.exception_type h =
    encoded 127 ExternKind.exception_type (omega arith) (λ s. refl)

-- An export with a valid name, a kind, and numbers that have an encoding.
pub record IsExport (e : Export) : Type 0 where
  pub valid : is_valid_utf8 e.name ≡ true
  pub size : length e.name < 2 ^ 32
  pub of_kind : e.kind ≢ ExternKind.invalid
  pub index_fits : e.index < 2 ^ 32

-- An export with a valid name is read back as it was written.
pub Reads-export : (e : Export) → IsExport e → Reads (write_export e) read_export e
Reads-export e h = Reads-bind _ (Reads-string e.name h.size) (
    Reads-bind _ (Reads-if_valid e.name h.valid) (
      Reads-bind _ (Reads-kind e.kind h.of_kind) (
        Reads-map (λ index. record { name = e.name; kind = e.kind; index = index })
          (Reads-uint32 e.index h.index_fits))))

Reads-calling_convention :
    (convention : CallingConvention)
    → Reads (write_calling_convention convention) read_calling_convention convention
Reads-calling_convention convention =
    Reads-after _
      (Reads-uint 32 32 (encode_calling_convention convention) (omega arith) (omega arith)
        (omega arith) (below convention))
      (decoded convention)
  where
    below : (convention : CallingConvention) → encode_calling_convention convention < 2 ^ 32
    below convention = ground arith

    decoded :
        (convention : CallingConvention) (s : List ℕ)
        → decode_calling_convention (encode_calling_convention convention) s ≡ ok convention s
    decoded CallingConvention.wasm s = refl
    decoded CallingConvention.intrinsic s = refl
    decoded CallingConvention.intrinsic_with_context_switch s = refl
    decoded CallingConvention.c s = refl
    decoded CallingConvention.c_api_callback s = refl

tagged :
    (convention : CallingConvention)
    → Reads
        (bytes (97 ∷ []) <> write_calling_convention convention)
        (next_byte >>= read_convention)
        convention
tagged convention = Reads-bind _ (Reads-next_byte 97) (Reads-calling_convention convention)

pub Reads-convention :
    (convention : CallingConvention)
    → Reads (write_convention convention) (next_byte >>= read_convention) convention
Reads-convention CallingConvention.wasm = Reads-after _ (Reads-next_byte 96) (λ s. refl)
Reads-convention CallingConvention.intrinsic = tagged CallingConvention.intrinsic
Reads-convention CallingConvention.intrinsic_with_context_switch =
    tagged CallingConvention.intrinsic_with_context_switch
Reads-convention CallingConvention.c = tagged CallingConvention.c
Reads-convention CallingConvention.c_api_callback = tagged CallingConvention.c_api_callback

abbrev pub IsFunction : FunctionType → Type 0
IsFunction type = IsEncodable type.params × IsEncodable type.results

-- A function type of concrete value types is read back as it was written, whatever its calling
-- convention is.
pub Reads-function_type :
    (type : FunctionType)
    → IsFunction type
    → Reads (write_function_type type) read_function_type type
Reads-function_type type (p, r) = Reads-bind _ (Reads-convention type.calling_convention) (
    Reads-bind _ (Reads-type_tuple type.params p) (
      Reads-map
        (λ results. record {
          results = results;
          params = type.params;
          calling_convention = type.calling_convention;
        })
        (Reads-type_tuple type.results r)))
