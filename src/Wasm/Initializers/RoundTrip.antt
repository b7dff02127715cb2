-- ===== src/Wasm/Initializers/RoundTrip.antt =====
-- Initializer expressions and globals as they are written and read back.
use wavm.Prelude.{
  ℕ, zero, suc, ◌*◌, ◌/◌, ◌%◌, ◌^◌, ◌<◌, ◌≡◌, ◌≢◌, refl, ap, subst, true, [], ◌∷◌, length, leb,
  if◌then◌else◌, to_signed, arith,
}
use wavm.Ir.Types.{ReferenceType}
use wavm.Ir.Module.{InitializerExpression, GlobalDef}
use wavm.Inline.Serialization.{◌>>=◌, pure, Written, bytes, ◌<>◌}
use wavm.Inline.Serialization.Reads.{
  Reads, Reads-bind, Reads-map, Reads-after, Reads-next_byte, Reads-advance, Reads-constant,
}
use wavm.Inline.Leb128.{read_var_int}
use wavm.Inline.Leb128.Formats.{
  var_int32, var_int64, write_int, Reads-int, Reads-uint, Reads-uint32,
}
use wavm.Wasm.Types.RoundTrip.{IsConcrete, Reads-reference_type, Reads-global_type}
use native.Mathlib.Nat.{pow-succ'}
use wavm.Inline.Leb128.Formats.{var_uint32_of_u32, read_uint}
use wavm.Inline.Serialization.{advance}
use wavm.Wasm.Initializers.{
  bit_or, write_opcode, read_opcode, native_bytes, native_value, write_native, read_native,
  pattern_of, end_opcode, write_initializer, decode_initializer, read_initializer, write_global_def,
  read_global_def,
}

length-native_bytes : (size value : ℕ) → length (native_bytes size value) ≡ size
unfolding native_bytes
length-native_bytes zero value = refl
length-native_bytes (suc size) value = ap suc (length-native_bytes size (value / 256))

native_value-native_bytes :
    (size value : ℕ) → value < 256 ^ size → native_value (native_bytes size value) ≡ value
unfolding native_bytes native_value
native_value-native_bytes zero value h = omega (arith, h)
native_value-native_bytes (suc size) value h =
    let ih = native_value-native_bytes size (value / 256) (omega (arith, h, pow-succ' 256 size)) in
    omega (arith, ih)

Reads-native :
    (size value : ℕ) → value < 256 ^ size → Reads (write_native size value) (read_native size) value
Reads-native size value h =
    subst (λ v. Reads (write_native size value) (read_native size) v)
      (native_value-native_bytes size value h)
      (Reads-map native_value (
        subst (λ n. Reads (write_native size value) (advance n) (native_bytes size value))
          (length-native_bytes size value) (Reads-advance (native_bytes size value))))

pattern-to_signed32 : (n : ℕ) → n < 2 ^ 32 → pattern_of 32 (to_signed 32 n) ≡ n
pattern-to_signed32 n h = ground arith

pattern-to_signed64 : (n : ℕ) → n < 2 ^ 64 → pattern_of 64 (to_signed 64 n) ≡ n
pattern-to_signed64 n h = ground arith

Reads-int32 :
    (n : ℕ)
    → n < 2 ^ 32
    → Reads (write_int var_int32 (to_signed 32 n)) (read_var_int var_int32) (to_signed 32 n)
Reads-int32 n h =
    Reads-int var_int32 (to_signed 32 n)
      (record { some_bits = omega arith; bits_fit = omega arith; word = omega arith })
      (record { of_type = tt; small = ground arith; bounded = ground arith })

Reads-int64 :
    (n : ℕ)
    → n < 2 ^ 64
    → Reads (write_int var_int64 (to_signed 64 n)) (read_var_int var_int64) (to_signed 64 n)
Reads-int64 n h =
    Reads-int var_int64 (to_signed 64 n)
      (record { some_bits = omega arith; bits_fit = omega arith; word = omega arith })
      (record { of_type = tt; small = ground arith; bounded = ground arith })

-- A constant of its type's size, a reference type, or an index that has an encoding.
abbrev pub IsInitializer : InitializerExpression → Type 0
IsInitializer (InitializerExpression.i32_const n) = n < 2 ^ 32
IsInitializer (InitializerExpression.i64_const n) = n < 2 ^ 64
IsInitializer (InitializerExpression.f32_const n) = n < 256 ^ 4
IsInitializer (InitializerExpression.f64_const n) = n < 256 ^ 8
IsInitializer (InitializerExpression.v128_const n) = n < 256 ^ 16
IsInitializer (InitializerExpression.global_get n) = n < 2 ^ 32
IsInitializer (InitializerExpression.ref_func n) = n < 2 ^ 32
IsInitializer (InitializerExpression.ref_null type) = type ≢ ReferenceType.none
IsInitializer InitializerExpression.invalid = ⊥

pub Reads-opcode :
    (opcode : ℕ) → leb opcode 223 ≡ true → Reads (bytes (opcode ∷ [])) read_opcode opcode
Reads-opcode opcode h = Reads-after _ (Reads-next_byte opcode) (λ s.
    ap
      (λ b.
        (if b
            then pure opcode
            else (read_uint var_uint32_of_u32 >>= λ low.
                pure (bit_or 32 (opcode * 256) low % 2 ^ 16)))
          s)
      h)

Reads-v128_opcode : Reads (write_opcode 64780) read_opcode 64780
unfolding bit_or
Reads-v128_opcode = Reads-bind _ (Reads-next_byte 253) (
    Reads-map (λ low. bit_or 32 (253 * 256) low % 2 ^ 16)
      (Reads-uint 32 32 12 (omega arith) (omega arith) (omega arith) (omega arith)))

-- The operator's opcode, its operand and the end.
whole :
    {op operand : Written} {initializer : InitializerExpression} (opcode : ℕ)
    → Reads op read_opcode opcode
    → Reads operand (decode_initializer opcode) initializer
    → Reads (op <> operand <> bytes (end_opcode ∷ [])) read_initializer initializer
whole {initializer} opcode x y =
    Reads-bind _ x (Reads-bind _ y (Reads-map (λ _. initializer) (Reads-constant end_opcode)))

-- An initializer expression with an operand of its type's size is read back as it was written:
-- integers from their signed encoding, floating-point and vector constants bit by bit.
pub Reads-initializer :
    (initializer : InitializerExpression)
    → IsInitializer initializer
    → Reads (write_initializer initializer) read_initializer initializer
Reads-initializer (InitializerExpression.i32_const n) h = whole 65 (Reads-opcode 65 refl) (
    subst
      (λ v.
        Reads (write_int var_int32 (to_signed 32 n)) (decode_initializer 65)
          (InitializerExpression.i32_const v))
      (pattern-to_signed32 n h)
      (Reads-map (λ v. InitializerExpression.i32_const (pattern_of 32 v)) (Reads-int32 n h)))
Reads-initializer (InitializerExpression.i64_const n) h = whole 66 (Reads-opcode 66 refl) (
    subst
      (λ v.
        Reads (write_int var_int64 (to_signed 64 n)) (decode_initializer 66)
          (InitializerExpression.i64_const v))
      (pattern-to_signed64 n h)
      (Reads-map (λ v. InitializerExpression.i64_const (pattern_of 64 v)) (Reads-int64 n h)))
Reads-initializer (InitializerExpression.f32_const n) h =
    whole 67 (Reads-opcode 67 refl) (Reads-map InitializerExpression.f32_const (Reads-native 4 n h))
Reads-initializer (InitializerExpression.f64_const n) h =
    whole 68 (Reads-opcode 68 refl) (Reads-map InitializerExpression.f64_const (Reads-native 8 n h))
Reads-initializer (InitializerExpression.v128_const n) h =
    whole 64780 Reads-v128_opcode (Reads-map InitializerExpression.v128_const (Reads-native 16 n h))
Reads-initializer (InitializerExpression.global_get n) h =
    whole 35 (Reads-opcode 35 refl) (Reads-map InitializerExpression.global_get (Reads-uint32 n h))
Reads-initializer (InitializerExpression.ref_null type) h =
    whole 208 (Reads-opcode 208 refl)
      (Reads-map InitializerExpression.ref_null (Reads-reference_type type h))
Reads-initializer (InitializerExpression.ref_func n) h =
    whole 210 (Reads-opcode 210 refl) (Reads-map InitializerExpression.ref_func (Reads-uint32 n h))
Reads-initializer InitializerExpression.invalid h = absurd h

abbrev pub IsGlobal : GlobalDef → Type 0
IsGlobal def = IsConcrete def.type.value_type × IsInitializer def.initializer

-- The definition of a global is read back as it was written.
pub Reads-global_def :
    (def : GlobalDef) → IsGlobal def → Reads (write_global_def def) read_global_def def
Reads-global_def def (c, h) = Reads-bind _ (Reads-global_type def.type c) (
    Reads-map (λ initializer. record { type = def.type; initializer = initializer })
      (Reads-initializer def.initializer h))
