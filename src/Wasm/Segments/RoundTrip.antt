-- ===== src/Wasm/Segments/RoundTrip.antt =====
-- Element and data segments as they are written and read back.
use wavm.Prelude.{
  ℕ, ◌+◌, ◌/◌, ◌%◌, ◌^◌, ◌<◌, ◌≡◌, ◌≢◌, refl, ap, subst, sym, Bool, true, false, not, ◌&&◌, List,
  [], ◌∷◌, length, ltb, ◌==◌, if◌then◌else◌, arith,
}
use wavm.Ir.Types.{ReferenceType, ExternKind, uptr_max}
use wavm.Ir.Module.{
  InitializerExpression, ElemExpr, ElemContents, ElemMode, ElemSegment, DataSegment,
}
use wavm.Inline.Serialization.{FatalSerializationException, ◌>>=◌, pure, throw, bytes, ◌<>◌}
use wavm.Inline.Serialization.Reads.{
  Reads, Reads-bind, Reads-map, Reads-after, Reads-pure, Reads-next_byte, Reads-constant, Every,
}
use wavm.Inline.Leb128.{write_var_int, write_digits}
use wavm.Inline.Leb128.Formats.{
  var_uint32_of_u32, write_uint, read_uint, Reads-uint, Reads-uint32, Reads-array,
}
use wavm.Wasm.Types.{flag}
use wavm.Wasm.Types.RoundTrip.{Reads-reference_type}
use wavm.Wasm.Definitions.RoundTrip.{Reads-kind}
use wavm.Wasm.Initializers.{write_initializer}
use wavm.Wasm.Initializers.RoundTrip.{IsInitializer, Reads-initializer, Reads-opcode}
use wavm.Wasm.Segments.{
  write_elem_expr, read_elem_expr, is_expr, has_non_function_elements, mode_flags, write_mode,
  read_mode, write_contents, read_contents, write_elem_segment, check_elem_flags, read_elem_segment,
  write_data_mode, write_active_data, data_segment_of, read_data_mode, write_data_segment,
  read_data_segment,
}

abbrev pub IsElem : ElemExpr → Type 0
IsElem ElemExpr.invalid = ⊥
IsElem (ElemExpr.ref_null type) = type ≢ ReferenceType.none
IsElem (ElemExpr.ref_func index) = index < 2 ^ 32

Reads-elem_expr : (elem : ElemExpr) → IsElem elem → Reads (write_elem_expr elem) read_elem_expr elem
Reads-elem_expr ElemExpr.invalid h = absurd h
Reads-elem_expr (ElemExpr.ref_null type) h = Reads-bind _ (Reads-opcode 208 refl) (
    Reads-bind _ (Reads-map ElemExpr.ref_null (Reads-reference_type type h))
      (Reads-map (λ _. ElemExpr.ref_null type) (Reads-constant 11)))
Reads-elem_expr (ElemExpr.ref_func index) h = Reads-bind _ (Reads-opcode 210 refl) (
    Reads-bind _ (Reads-map ElemExpr.ref_func (Reads-uint32 index h))
      (Reads-map (λ _. ElemExpr.ref_func index) (Reads-constant 11)))

-- Where an active segment is written to has an encoding.
abbrev pub IsMode : ElemMode → Type 0
IsMode (ElemMode.active table_index base_offset) =
    (table_index < 2 ^ 32) × IsInitializer base_offset
IsMode other = Unit

-- The elements, and their type or kind, have encodings.
abbrev pub AreElements : ElemContents → Type 0
AreElements (ElemContents.expr elem_type elems) =
    (elem_type ≢ ReferenceType.none) × (length elems < 2 ^ 32) × Every IsElem elems
AreElements (ElemContents.index extern_kind elems) =
    (extern_kind ≢ ExternKind.invalid)
    × (length elems < 2 ^ 32)
    × Every (λ index. index < 2 ^ 32) elems

typed_contents :
    (contents : ElemContents)
    → AreElements contents
    → Reads (write_contents false contents) (read_contents false (is_expr contents)) contents
typed_contents (ElemContents.expr elem_type elems) (t, n, h) =
    Reads-bind _ (Reads-reference_type elem_type t)
      (Reads-map (ElemContents.expr elem_type) (Reads-array Reads-elem_expr elems n h))
typed_contents (ElemContents.index extern_kind elems) (k, n, h) =
    Reads-bind _ (Reads-kind extern_kind k)
      (Reads-map (ElemContents.index extern_kind) (Reads-array Reads-uint32 elems n h))

plain_contents :
    (contents : ElemContents)
    → AreElements contents
    → has_non_function_elements contents ≡ false
    → Reads (write_contents true contents) (read_contents true (is_expr contents)) contents
plain_contents (ElemContents.expr ReferenceType.funcref elems) (t, n, h) e =
    Reads-map (ElemContents.expr ReferenceType.funcref) (Reads-array Reads-elem_expr elems n h)
plain_contents (ElemContents.index ExternKind.function elems) (k, n, h) e =
    Reads-map (ElemContents.index ExternKind.function) (Reads-array Reads-uint32 elems n h)
plain_contents (ElemContents.expr ReferenceType.none elems) h e = absurd cc
plain_contents (ElemContents.expr ReferenceType.externref elems) h e = absurd cc
plain_contents (ElemContents.index ExternKind.invalid elems) h e = absurd cc
plain_contents (ElemContents.index ExternKind.table elems) h e = absurd cc
plain_contents (ElemContents.index ExternKind.memory elems) h e = absurd cc
plain_contents (ElemContents.index ExternKind.global elems) h e = absurd cc
plain_contents (ElemContents.index ExternKind.exception_type elems) h e = absurd cc

-- A segment, from its flags and the two parts.
abbrev segment_of : ElemMode → ElemContents → ElemSegment
segment_of mode contents = record { mode = mode; contents = contents }

abbrev IsRead : ℕ → ElemMode → ElemContents → Type 0
IsRead n mode contents =
    Reads
      (write_uint var_uint32_of_u32 (n + flag (is_expr contents) 4)
        <> write_mode n mode
        <> write_contents (n == 0) contents)
      read_elem_segment (segment_of mode contents)

Reads-elem_flags :
    (flags : ℕ)
    → flags < 8
    → Reads
        (write_uint var_uint32_of_u32 flags)
        (read_uint var_uint32_of_u32 >>= check_elem_flags)
        flags
Reads-elem_flags flags h =
    Reads-after _
      (Reads-uint 32 32 flags (omega arith) (omega arith) (omega arith) (omega (arith, h)))
      (λ s.
        ap
          (λ b.
            (if b then throw FatalSerializationException.invalid_elem_segment_flags else pure flags)
              s)
          (small h))
  where
    small : flags < 8 → ltb 7 flags ≡ false
    small h = ground arith

from_parts :
    (n : ℕ) (mode : ElemMode) (contents : ElemContents)
    → n < 4
    → Reads (write_mode n mode) (read_mode n) mode
    → Reads (write_contents (n == 0) contents) (read_contents (n == 0) (is_expr contents)) contents
    → IsRead n mode contents
from_parts n mode contents h x y =
    Reads-bind _ (Reads-elem_flags (n + flag (is_expr contents) 4) (below (is_expr contents))) (
      subst
        (λ k.
          Reads (write_mode n mode <> write_contents (n == 0) contents)
            (read_mode k >>= λ m.
              read_contents (k == 0) ((n + flag (is_expr contents) 4) / 4 % 2 == 1) >>= λ c.
              pure (segment_of m c))
            (segment_of mode contents))
        (sym (low (is_expr contents)))
        (Reads-bind _ x (
          Reads-map (λ c. segment_of mode c)
            (subst
              (λ e. Reads (write_contents (n == 0) contents) (read_contents (n == 0) e) contents)
              (sym (high (is_expr contents))) y))))
  where
    below : (b : Bool) → n + flag b 4 < 8
    below b = ground (arith, h)

    low : (b : Bool) → (n + flag b 4) % 4 ≡ n
    low b = ground (arith, h)

    high : (b : Bool) → ((n + flag b 4) / 4 % 2 == 1) ≡ b
    high b = ground (arith, h)

active_segment :
    (b : Bool) (table_index : ℕ) (base_offset : InitializerExpression) (contents : ElemContents)
    → (b ≡ true → (table_index ≡ 0) × (has_non_function_elements contents ≡ false))
    → table_index < 2 ^ 32
    → IsInitializer base_offset
    → AreElements contents
    → IsRead (if b then 0 else 2) (ElemMode.active table_index base_offset) contents
active_segment true table_index base_offset contents e t i h =
    from_parts 0 (ElemMode.active table_index base_offset) contents (omega arith)
      (subst
        (λ z. Reads (write_initializer base_offset) (read_mode 0) (ElemMode.active z base_offset))
        (sym (e refl).0) (Reads-map (ElemMode.active 0) (Reads-initializer base_offset i)))
      (plain_contents contents h (e refl).1)
active_segment false table_index base_offset contents e t i h =
    from_parts 2 (ElemMode.active table_index base_offset) contents (omega arith)
      (Reads-bind _ (Reads-uint32 table_index t)
        (Reads-map (ElemMode.active table_index) (Reads-initializer base_offset i)))
      (typed_contents contents h)

-- An element segment is read back as it was written, in each of its modes and both encodings of its
-- elements: the short form, which leaves out the table and the type, stands for table 0 and
-- functions.
pub Reads-elem_segment :
    (segment : ElemSegment)
    → IsMode segment.mode
    → AreElements segment.contents
    → Reads (write_elem_segment segment) read_elem_segment segment
Reads-elem_segment segment m h = by_mode segment.mode segment.contents m h
  where
    by_mode :
        (mode : ElemMode) (contents : ElemContents)
        → IsMode mode
        → AreElements contents
        → IsRead (mode_flags mode (has_non_function_elements contents)) mode contents
    by_mode (ElemMode.active table_index base_offset) contents (t, i) h =
        active_segment (table_index == 0 && not (has_non_function_elements contents)) table_index
          base_offset contents (λ e. (ground (arith, e), ground (arith, e))) t i h
    by_mode ElemMode.passive contents m h =
        from_parts 1 ElemMode.passive contents (omega arith) (Reads-pure ElemMode.passive)
          (typed_contents contents h)
    by_mode ElemMode.declared contents m h =
        from_parts 3 ElemMode.declared contents (omega arith) (Reads-pure ElemMode.declared)
          (typed_contents contents h)

-- A byte as the flags of a data segment.
data_flags :
    (n : ℕ)
    → n < 3
    → write_uint var_uint32_of_u32 n ≡ bytes (n ∷ [])
    → Reads (bytes (n ∷ [])) (read_uint var_uint32_of_u32) n
data_flags n h e =
    subst (λ w. Reads w (read_uint var_uint32_of_u32) n) e
      (Reads-uint 32 32 n (omega arith) (omega arith) (omega arith) (omega (arith, h)))

-- An active segment with an encoding, or what the reader makes of a passive one.
abbrev pub IsData : Bool → ℕ → InitializerExpression → Type 0
IsData true memory_index base_offset = (memory_index < 2 ^ 32) × IsInitializer base_offset
IsData false memory_index base_offset =
    (memory_index ≡ uptr_max) × (base_offset ≡ InitializerExpression.invalid)

active_data :
    (b : Bool) (memory_index : ℕ) (base_offset : InitializerExpression)
    → (b ≡ true → memory_index ≡ 0)
    → memory_index < 2 ^ 32
    → IsInitializer base_offset
    → Reads
        (write_active_data b memory_index base_offset)
        (read_uint var_uint32_of_u32 >>= read_data_mode)
        (data_segment_of true memory_index base_offset)
unfolding write_var_int write_digits
active_data true memory_index base_offset z m i =
    subst
      (λ n.
        Reads (write_active_data true memory_index base_offset)
          (read_uint var_uint32_of_u32 >>= read_data_mode) (data_segment_of true n base_offset))
      (sym (z refl))
      (Reads-bind _ (data_flags 0 (omega arith) refl)
        (Reads-map (data_segment_of true 0) (Reads-initializer base_offset i)))
active_data false memory_index base_offset z m i = Reads-bind _ (data_flags 2 (omega arith) refl) (
    Reads-bind _ (Reads-uint32 memory_index m)
      (Reads-map (data_segment_of true memory_index) (Reads-initializer base_offset i)))

data_mode :
    (is_active : Bool) (memory_index : ℕ) (base_offset : InitializerExpression)
    (data_bytes : List ℕ)
    → IsData is_active memory_index base_offset
    → Reads
        (write_data_mode (data_segment_of is_active memory_index base_offset data_bytes))
        (read_uint var_uint32_of_u32 >>= read_data_mode)
        (data_segment_of is_active memory_index base_offset)
unfolding write_var_int write_digits
data_mode false memory_index base_offset data_bytes (m, b) =
    subst (λ f. Reads (bytes (1 ∷ [])) (read_uint var_uint32_of_u32 >>= read_data_mode) f)
      (λ i. data_segment_of false (sym m i) (sym b i))
      (Reads-after _ (data_flags 1 (omega arith) refl) (λ s. refl))
data_mode true memory_index base_offset data_bytes (m, b) =
    active_data (memory_index == 0) memory_index base_offset (λ e. ground (arith, e)) m b

abbrev pub IsDataSegment : DataSegment → Type 0
IsDataSegment segment =
    IsData segment.is_active segment.memory_index segment.base_offset
    × (length segment.bytes < 2 ^ 32)

Every-unit : (xs : List ℕ) → Every (λ _. Unit) xs
Every-unit [] = tt
Every-unit (x ∷ xs) = (tt, Every-unit xs)

-- A data segment is read back as it was written, active or passive, with all its bytes.
pub Reads-data_segment :
    (segment : DataSegment)
    → IsDataSegment segment
    → Reads (write_data_segment segment) read_data_segment segment
Reads-data_segment segment (d, n) =
    Reads-bind _
      (data_mode segment.is_active segment.memory_index segment.base_offset segment.bytes d)
      (Reads-map (data_segment_of segment.is_active segment.memory_index segment.base_offset)
        (Reads-array (λ b _. Reads-next_byte b) segment.bytes n (Every-unit segment.bytes)))
