-- ===== src/Wasm/Types/RoundTrip.antt =====
-- Types as they are written and read back.
use wavm.Prelude.{
  ℕ, ◌+◌, ◌/◌, ◌^◌, ◌<◌, ◌≡◌, refl, ap, sym, subst, ◌⊎◌, ◌≢◌, if◌then◌else◌, inl, inr, Bool, true,
  false, not, ◌||◌, List, length, ◌==◌, negsuc, arith, Bool-cases,
}
use wavm.Ir.Types.{
  ValueType, ReferenceType, TypeTuple, IndexType, SizeConstraints, TableType, MemoryType,
  GlobalType, ExceptionType, is_numeric_type, is_reference_type, u64_max,
}
use wavm.Inline.Serialization.{FatalSerializationException, ok, ◌>>=◌, pure, throw}
use wavm.Inline.Serialization.Reads.{
  Reads, Reads-bind, Reads-map, Reads-after, Reads-next_byte, Every,
}
use wavm.Inline.Leb128.Formats.{
  var_int7, var_uint7, write_int, write_uint, read_uint, Reads-int, Reads-uint, Reads-uint32,
  Reads-array,
}
use wavm.Wasm.Types.{
  decode_value_type, write_value_type, read_value_type, write_type_tuple, read_type_tuple,
  write_index, read_index, write_size_constraints, read_size_constraints, write_reference_type,
  read_reference_type, has_max, is_i64, flag, type_flags, flags_max, flags_shared, flags_index_type,
  check_flags, write_table_type, read_table_type, table_type_of, write_memory_type,
  read_memory_type, memory_type_of, write_global_type, read_global_type, write_exception_type,
  read_exception_type,
}

-- Not `none` or `any`.
abbrev pub IsConcrete : ValueType → Type 0
IsConcrete type = (is_numeric_type type || is_reference_type type) ≡ true

-- A tuple of which the number of elements has an encoding.
abbrev pub IsEncodable : TypeTuple → Type 0
IsEncodable types = (length types < 2 ^ 32) × Every IsConcrete types

encoded :
    (k : ℕ) (type : ValueType)
    → k < 64
    → ((s : List ℕ) → decode_value_type (negsuc k) s ≡ ok type s)
    → Reads (write_int var_int7 (negsuc k)) read_value_type type
encoded k type h decoded =
    Reads-after _
      (Reads-int var_int7 (negsuc k)
        (record { some_bits = omega arith; bits_fit = omega arith; word = omega arith })
        (record { of_type = tt; small = h; bounded = ground arith }))
      decoded

pub Reads-value_type :
    (type : ValueType) → IsConcrete type → Reads (write_value_type type) read_value_type type
unfolding is_numeric_type is_reference_type
Reads-value_type ValueType.i32 h = encoded 0 ValueType.i32 (omega arith) (λ s. refl)
Reads-value_type ValueType.i64 h = encoded 1 ValueType.i64 (omega arith) (λ s. refl)
Reads-value_type ValueType.f32 h = encoded 2 ValueType.f32 (omega arith) (λ s. refl)
Reads-value_type ValueType.f64 h = encoded 3 ValueType.f64 (omega arith) (λ s. refl)
Reads-value_type ValueType.v128 h = encoded 4 ValueType.v128 (omega arith) (λ s. refl)
Reads-value_type ValueType.funcref h = encoded 15 ValueType.funcref (omega arith) (λ s. refl)
Reads-value_type ValueType.externref h = encoded 16 ValueType.externref (omega arith) (λ s. refl)
Reads-value_type ValueType.none h = absurd cc
Reads-value_type ValueType.any h = absurd cc

pub Reads-type_tuple :
    (types : TypeTuple) → IsEncodable types → Reads (write_type_tuple types) read_type_tuple types
Reads-type_tuple types h = Reads-array Reads-value_type types h.0 h.1

-- The number of bits of a size.
abbrev pub index_bits : IndexType → ℕ
index_bits IndexType.i32 = 32
index_bits IndexType.i64 = 64

Reads-index :
    (type : IndexType) (n : ℕ)
    → n < 2 ^ index_bits type
    → Reads (write_index type n) (read_index type) n
Reads-index IndexType.i32 n h = Reads-uint32 n h
Reads-index IndexType.i64 n h = Reads-uint 64 64 n (omega arith) (omega arith) (omega arith) h

-- A size that the format has room for: a bound is one of the index type, or there is none.
pub record FitsIndex (type : IndexType) (size : SizeConstraints) : Type 0 where
  pub min_fits : size.min < 2 ^ index_bits type
  pub max_fits : (size.max < 2 ^ index_bits type) ⊎ (size.max ≡ u64_max)

Reads-bounded :
    (type : IndexType) (size : SizeConstraints)
    → size.min < 2 ^ index_bits type
    → size.max < 2 ^ index_bits type
    → Reads (write_size_constraints true type size) (read_size_constraints true type) size
Reads-bounded type size h g =
    Reads-bind _ (Reads-index type size.min h)
      (Reads-map (λ max. record { min = size.min; max = max }) (Reads-index type size.max g))

Reads-unbounded :
    (type : IndexType) (size : SizeConstraints)
    → size.min < 2 ^ index_bits type
    → size.max ≡ u64_max
    → Reads (write_size_constraints false type size) (read_size_constraints false type) size
Reads-unbounded type size h e =
    subst
      (λ max.
        Reads (write_size_constraints false type (record { min = size.min; max = max }))
          (read_size_constraints false type) (record { min = size.min; max = max }))
      (sym e) (Reads-map (λ min. record { min = min; max = u64_max }) (Reads-index type size.min h))

Reads-size :
    (type : IndexType) (size : SizeConstraints)
    → FitsIndex type size
    → Reads
        (write_size_constraints (has_max size) type size)
        (read_size_constraints (has_max size) type)
        size
Reads-size type size h = elim (Bool-cases (size.max == u64_max)) [
  | inl e ↦
      subst
        (λ b.
          Reads (write_size_constraints (not b) type size) (read_size_constraints (not b) type)
            size)
        (sym e) (Reads-unbounded type size h.min_fits (ground (arith, e)))
  | inr e ↦
      subst
        (λ b.
          Reads (write_size_constraints (not b) type size) (read_size_constraints (not b) type)
            size)
        (sym e) (Reads-bounded type size h.min_fits (below h.max_fits e))
]
  where
    below :
        (size.max < 2 ^ index_bits type) ⊎ (size.max ≡ u64_max)
        → (size.max == u64_max) ≡ false
        → size.max < 2 ^ index_bits type
    below (inl g) e = g
    below (inr g) e = absurd (ground (arith, g, e))

-- What the flags of a table or a memory say, and that no other flag is set.
pub record Encodes (m sh : Bool) (type : IndexType) (flags : ℕ) : Type 0 where
  pub max_is : flags_max flags ≡ m
  pub shared_is : flags_shared flags ≡ sh
  pub index_type_is : flags_index_type flags ≡ type
  pub known : (flags / 8 == 0) ≡ true
  pub small : flags < 2 ^ 7

type_flags-Encodes :
    (m sh : Bool) (type : IndexType)
    → Encodes m sh type (flag m 1 + flag sh 2 + flag (is_i64 type) 4)
type_flags-Encodes m sh type = record {
  max_is = ground arith;
  shared_is = ground arith;
  index_type_is = ground arith;
  known = ground arith;
  small = ground arith;
}

Reads-type_flags :
    (unknown : FatalSerializationException) {m sh : Bool} {type : IndexType} (flags : ℕ)
    → Encodes m sh type flags
    → Reads (write_uint var_uint7 flags) (read_uint var_uint7 >>= check_flags unknown) flags
Reads-type_flags unknown flags f =
    Reads-after _ (Reads-uint 8 7 flags (omega arith) (omega arith) (omega arith) f.small)
      (λ s. ap (λ b. (if b then pure flags else throw unknown) s) f.known)

Reads-size_after :
    (size : SizeConstraints) (type : IndexType) {sh : Bool} (flags : ℕ)
    → Encodes (has_max size) sh type flags
    → FitsIndex type size
    → Reads
        (write_size_constraints (has_max size) type size)
        (read_size_constraints (flags_max flags) (flags_index_type flags))
        size
Reads-size_after size type flags f h =
    subst
      (λ i.
        Reads (write_size_constraints (has_max size) type size)
          (read_size_constraints (flags_max flags) i) size)
      (sym f.index_type_is)
      (subst
        (λ m.
          Reads (write_size_constraints (has_max size) type size) (read_size_constraints m type)
            size)
        (sym f.max_is) (Reads-size type size h))

pub Reads-reference_type :
    (type : ReferenceType)
    → type ≢ ReferenceType.none
    → Reads (write_reference_type type) read_reference_type type
Reads-reference_type ReferenceType.none h = absurd (h refl)
Reads-reference_type ReferenceType.externref h = Reads-after _ (Reads-next_byte 111) (λ s. refl)
Reads-reference_type ReferenceType.funcref h = Reads-after _ (Reads-next_byte 112) (λ s. refl)

abbrev pub IsTable : TableType → Type 0
IsTable type = (type.element_type ≢ ReferenceType.none) × FitsIndex type.index_type type.size

-- A table type of which the sizes fit its index type is read back as it was written: the element
-- type, whether it is shared, its index type, the smallest size, and the bound or that there is none.
pub Reads-table_type :
    (type : TableType) → IsTable type → Reads (write_table_type type) read_table_type type
Reads-table_type type (e, h) =
    let f = type_flags-Encodes (has_max type.size) type.is_shared type.index_type in
    let flags = type_flags type.size type.is_shared type.index_type in
    let q : table_type_of type.element_type flags type.size ≡ type = λ i. record {
      element_type = type.element_type;
      is_shared = f.shared_is i;
      index_type = f.index_type_is i;
      size = type.size;
    } in
    subst (Reads (write_table_type type) read_table_type) q (
      Reads-bind _ (Reads-reference_type type.element_type e) (
        Reads-bind _ (Reads-type_flags FatalSerializationException.unknown_table_type_flag flags f)
          (Reads-map (table_type_of type.element_type flags)
            (Reads-size_after type.size type.index_type flags f h))))

-- A memory type of which the sizes fit its index type is read back as it was written.
pub Reads-memory_type :
    (type : MemoryType)
    → FitsIndex type.index_type type.size
    → Reads (write_memory_type type) read_memory_type type
Reads-memory_type type h =
    let f = type_flags-Encodes (has_max type.size) type.is_shared type.index_type in
    let flags = type_flags type.size type.is_shared type.index_type in
    let q : memory_type_of flags type.size ≡ type =
      λ i. record { is_shared = f.shared_is i; index_type = f.index_type_is i; size = type.size } in
    subst (Reads (write_memory_type type) read_memory_type) q (
      Reads-bind _ (Reads-type_flags FatalSerializationException.unknown_memory_type_flag flags f)
        (Reads-map (memory_type_of flags) (Reads-size_after type.size type.index_type flags f h)))

pub Reads-global_type :
    (type : GlobalType)
    → IsConcrete type.value_type
    → Reads (write_global_type type) read_global_type type
Reads-global_type type h =
    let q : not (flag type.is_mutable 1 == 0) ≡ type.is_mutable = mutable_is type.is_mutable in
    subst (Reads (write_global_type type) read_global_type)
      (λ i. record { value_type = type.value_type; is_mutable = q i })
      (Reads-bind _ (Reads-value_type type.value_type h) (
        Reads-map (λ m. record { value_type = type.value_type; is_mutable = not (m == 0) })
          (Reads-uint 8 1 (flag type.is_mutable 1) (omega arith) (omega arith) (omega arith)
            (below type.is_mutable))))
  where
    mutable_is : (b : Bool) → not (flag b 1 == 0) ≡ b
    mutable_is b = ground arith

    below : (b : Bool) → flag b 1 < 2 ^ 1
    below b = ground arith

pub Reads-exception_type :
    (type : ExceptionType)
    → IsEncodable type.params
    → Reads (write_exception_type type) read_exception_type type
Reads-exception_type type h =
    Reads-map (λ params. record { params = params }) (Reads-type_tuple type.params h)
