-- ===== src/Inline/Leb128/Formats.antt =====
-- The formats with which LEB128.h instantiates its template, and the array of Serialization.h
-- that writes its size in one of them. A format of unsigned integers is read as a natural number.
use wavm.Prelude.{
  ℕ, ◌-◌, ◌^◌, ◌≤◌, ◌<◌, ap, true, false, List, length, Option, some, none, ℤ, pos, negsuc, arith,
}
use wavm.Inline.Serialization.{
  Reader, ◌>>=◌, pure, Written, unfinished, ◌<>◌, read_elements, write_elements,
}
use wavm.Inline.Serialization.Reads.{Reads, Reads-bind, Reads-map, Reads-elements, Every}
use wavm.Inline.Leb128.{VarInt, read_var_int, write_var_int}
use wavm.Inline.Leb128.Truncated.{read_var_int_truncated}
use wavm.Inline.Leb128.RoundTrip.{IsVarInt, Fits, read_var_int-write_var_int}

abbrev pub unsigned_format : ℕ → ℕ → VarInt
unsigned_format value_bits max_bits = record {
  is_signed = false;
  value_bits = value_bits;
  max_bits = max_bits;
  min_value = pos 0;
  max_value = pos (2 ^ max_bits - 1);
}

abbrev pub var_uint1 : VarInt
var_uint1 = unsigned_format 8 1

abbrev pub var_uint7 : VarInt
var_uint7 = unsigned_format 8 7

-- Of a `Uptr` or a `U64`
abbrev pub var_uint32 : VarInt
var_uint32 = unsigned_format 64 32

-- Of a `U32`
abbrev pub var_uint32_of_u32 : VarInt
var_uint32_of_u32 = unsigned_format 32 32

abbrev pub var_uint64 : VarInt
var_uint64 = unsigned_format 64 64

abbrev pub var_int7 : VarInt
var_int7 = record {
  is_signed = true;
  value_bits = 8;
  max_bits = 7;
  min_value = negsuc 63;
  max_value = pos 63;
}

abbrev pub var_int32 : VarInt
var_int32 = record {
  is_signed = true;
  value_bits = 32;
  max_bits = 32;
  min_value = negsuc (2 ^ 31 - 1);
  max_value = pos (2 ^ 31 - 1);
}

abbrev pub var_int64 : VarInt
var_int64 = record {
  is_signed = true;
  value_bits = 64;
  max_bits = 64;
  min_value = negsuc (2 ^ 63 - 1);
  max_value = pos (2 ^ 63 - 1);
}

abbrev finished : Option Written → Written
finished (some w) = w
finished none = unfinished

abbrev pub write_int : VarInt → ℤ → Written
write_int f value = finished (write_var_int f value)

abbrev natural : ℤ → ℕ
natural (pos n) = n
natural (negsuc n) = 0

abbrev pub write_uint : VarInt → ℕ → Written
write_uint f n = write_int f (pos n)

abbrev pub read_uint : VarInt → Reader ℕ
read_uint f = read_var_int f >>= λ value. pure (natural value)

-- serializeArray
abbrev pub write_array : {A : Type 0} → (A → Written) → List A → Written
write_array write vector = write_uint var_uint32 (length vector) <> write_elements write vector

abbrev pub read_array : {A : Type 0} → Reader A → Reader (List A)
read_array read = read_uint var_uint32 >>= read_elements read

pub Reads-int :
    (f : VarInt) (value : ℤ)
    → IsVarInt f
    → Fits f value
    → Reads (write_int f value) (read_var_int f) value
Reads-int f value v h =
    let (out, w, r) = read_var_int-write_var_int f value v h in
    record {
      out = out;
      writes = ap finished w;
      reads = r;
      truncated = read_var_int_truncated f value out r;
    }

pub Reads-uint :
    (value_bits max_bits n : ℕ)
    → 0 < max_bits
    → max_bits ≤ value_bits
    → value_bits ≤ 64
    → n < 2 ^ max_bits
    → Reads
        (write_uint (unsigned_format value_bits max_bits) n)
        (read_uint (unsigned_format value_bits max_bits))
        n
Reads-uint value_bits max_bits n a b c h = Reads-map natural (
    Reads-int (unsigned_format value_bits max_bits) (pos n)
      (record { some_bits = a; bits_fit = b; word = c })
      (record { of_type = tt; small = h; bounded = ground arith }))

pub Reads-uint32 : (n : ℕ) → n < 2 ^ 32 → Reads (write_uint var_uint32 n) (read_uint var_uint32) n
Reads-uint32 n h = Reads-uint 64 32 n (omega arith) (omega arith) (omega arith) h

pub Reads-array :
    {A : Type 0} {write : A → Written} {read : Reader A} {P : A → Type 0}
    → ((a : A) → P a → Reads (write a) read a)
    → (xs : List A) → length xs < 2 ^ 32
    → Every P xs
    → Reads (write_array write xs) (read_array read) xs
Reads-array each xs size h = Reads-bind _ (Reads-uint32 (length xs) size) (Reads-elements each xs h)
