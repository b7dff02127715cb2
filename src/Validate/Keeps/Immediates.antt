-- ===== src/Validate/Keeps/Immediates.antt =====
-- The immediates of operators, and the signatures that depend on them.
use wavm.Prelude.{
  ℕ, ◌<◌, ◌≡◌, List, [], ◌∷◌, length, arith, leb, get_elem?-some, Bool-cases, inl, inr, some, ◌⊎◌,
  replicate, refl,
}
use wavm.Ir.Module.{space_size, get_type-some, table_type, memory_type}
use wavm.Ir.Operators.{MemoryOrder, Imm, Signature}
use wavm.Ir.Types.{ValueType, MemoryType, TableType, TypeTuple}
use wavm.Validate.Imms.{
  validate_load_or_store, validate_lanes, validate_imm, size_signature, grow_signature,
  init_signature, copies_signature, fill_signature, signature_of, addressed, vectors,
}
use wavm.Validate.Keeps.{Checks}
use wavm.Validate.Keeps.References.{IsIndexed, validate_function_index-Checks}
use wavm.Validate.References.{validate_function_ref_is_declared}
use wavm.Validate.Result.{ok}
use wavm.Validate.State.{Context}

abbrev pub MemoryIn : Context → ℕ → Type 0
MemoryIn ctx i = i < space_size ctx.ir.memories

abbrev pub TableIn : Context → ℕ → Type 0
TableIn ctx i = i < space_size ctx.ir.tables

-- The indices that the signature of an operator looks up are in range.
abbrev pub InRange : Context → Imm → Type 0
InRange ctx (Imm.load_or_store natural alignment_log2 offset memory) = MemoryIn ctx memory
InRange ctx (Imm.load_or_store_lane natural lanes alignment_log2 offset memory lane) =
    MemoryIn ctx memory
InRange ctx (Imm.atomic_load_or_store natural alignment_log2 offset memory) = MemoryIn ctx memory
InRange ctx (Imm.memory memory) = MemoryIn ctx memory
InRange ctx (Imm.memory_copy dest source) = MemoryIn ctx dest × MemoryIn ctx source
InRange ctx (Imm.table table) = TableIn ctx table
InRange ctx (Imm.table_copy dest source) = TableIn ctx dest × TableIn ctx source
InRange ctx (Imm.data_segment_and_mem segment memory) = MemoryIn ctx memory
InRange ctx (Imm.elem_segment_and_table segment table) = TableIn ctx table
InRange ctx imm = Unit

-- A shuffle has as many indices as lanes; the C++ type of its immediate says so.
abbrev pub HasShape : Imm → Type 0
HasShape (Imm.shuffle lanes indices) = length indices ≡ lanes
HasShape imm = Unit

memory_at :
    (ctx : Context) (i : ℕ) → MemoryIn ctx i → (t : MemoryType) × (memory_type ctx.ir i ≡ some t)
memory_at ctx i h = get_type-some (λ d. d) ctx.ir.memories i h

table_at :
    (ctx : Context) (i : ℕ) → TableIn ctx i → (t : TableType) × (table_type ctx.ir i ≡ some t)
table_at ctx i h = get_type-some (λ d. d) ctx.ir.tables i h

load_or_store-Checks :
    (ctx : Context) (natural alignment_log2 offset memory : ℕ)
    → Checks
        (λ _. MemoryIn ctx memory)
        (validate_load_or_store ctx natural alignment_log2 offset memory)
unfolding validate_load_or_store
load_or_store-Checks ctx natural alignment_log2 offset memory =
    elim (Bool-cases (leb (space_size ctx.ir.memories) memory)) [
      | inl out ↦ ground arith
      | inr low ↦ let (t, e) = memory_at ctx memory (ground arith) in ground (arith, e)
    ]

lanes-Checks : (n : ℕ) (lanes : List ℕ) → Checks (λ _. Unit {0}) (validate_lanes n lanes)
unfolding validate_lanes
lanes-Checks n [] = tt
lanes-Checks n (lane ∷ lanes) = let h = lanes-Checks n lanes in ground (arith, h)

pub validate_imm-Checks :
    (ctx : Context) (imm : Imm)
    → IsIndexed ctx.ir
    → HasShape imm
    → Checks (λ _. InRange ctx imm) (validate_imm ctx imm)
unfolding validate_imm validate_function_ref_is_declared
validate_imm-Checks ctx Imm.no_imm v h = tt
validate_imm-Checks ctx (Imm.literal x) v h = tt
validate_imm-Checks ctx (Imm.load_or_store natural alignment_log2 offset memory) v h =
    load_or_store-Checks ctx natural alignment_log2 offset memory
validate_imm-Checks ctx (Imm.load_or_store_lane natural lanes alignment_log2 offset memory lane) v
      h =
    ground (arith, load_or_store-Checks ctx natural alignment_log2 offset memory)
validate_imm-Checks ctx (Imm.memory memory) v h = ground arith
validate_imm-Checks ctx (Imm.memory_copy dest source) v h = ground arith
validate_imm-Checks ctx (Imm.table table) v h = ground arith
validate_imm-Checks ctx (Imm.table_copy dest source) v h =
    ground (arith, table_at ctx dest, table_at ctx source)
validate_imm-Checks ctx (Imm.function_ref f) v h =
    ground (arith, validate_function_index-Checks ctx.ir f v)
validate_imm-Checks ctx (Imm.lane_index lanes lane) v h = ground arith
validate_imm-Checks ctx (Imm.shuffle lanes indices) v h = ground (arith, lanes-Checks lanes indices)
validate_imm-Checks ctx (Imm.atomic_load_or_store natural alignment_log2 offset memory) v h =
    ground arith
validate_imm-Checks ctx (Imm.atomic_fence MemoryOrder.sequentially_consistent) v h = tt
validate_imm-Checks ctx (Imm.data_segment_and_mem segment memory) v h = ground arith
validate_imm-Checks ctx (Imm.data_segment segment) v h = ground arith
validate_imm-Checks ctx (Imm.elem_segment_and_table segment table) v h =
    ground (arith, table_at ctx table, get_elem?-some ctx.ir.elem_segments segment)
validate_imm-Checks ctx (Imm.elem_segment segment) v h = ground arith

-- Which immediates an operator with a signature has; `Addressed` are those of loads, stores and
-- atomic operators.
abbrev Addressed : Imm → Type 0
Addressed (Imm.load_or_store natural alignment_log2 offset memory) = Unit
Addressed (Imm.load_or_store_lane natural lanes alignment_log2 offset memory lane) = Unit
Addressed (Imm.atomic_load_or_store natural alignment_log2 offset memory) = Unit
Addressed imm = ⊥

abbrev IsVectors : ℕ → Type 0
IsVectors n = (n ≡ 2) ⊎ (n ≡ 3) ⊎ (n ≡ 4)

abbrev SizeImm : Imm → Type 0
SizeImm (Imm.memory memory) = Unit
SizeImm (Imm.table table) = Unit
SizeImm imm = ⊥

abbrev MemoryImm : Imm → Type 0
MemoryImm (Imm.memory memory) = Unit
MemoryImm imm = ⊥

abbrev InitImm : Imm → Type 0
InitImm (Imm.data_segment_and_mem segment memory) = Unit
InitImm (Imm.elem_segment_and_table segment table) = Unit
InitImm imm = ⊥

abbrev CopyImm : Imm → Type 0
CopyImm (Imm.memory_copy dest source) = Unit
CopyImm (Imm.table_copy dest source) = Unit
CopyImm imm = ⊥

-- The immediate has the C++ type that the signature's function takes.
abbrev pub Fits : Signature → Imm → Type 0
Fits (Signature.monomorphic sig) imm = Unit
Fits (Signature.load_vectors n) imm = Addressed imm × IsVectors n
Fits (Signature.store_vectors n) imm = Addressed imm × IsVectors n
Fits Signature.size imm = SizeImm imm
Fits Signature.grow imm = MemoryImm imm
Fits Signature.init imm = InitImm imm
Fits Signature.copy imm = CopyImm imm
Fits Signature.fill imm = MemoryImm imm
Fits sig imm = Addressed imm

addressed-Checks :
    (ctx : Context) (imm : Imm) (results operands : TypeTuple)
    → Addressed imm
    → InRange ctx imm
    → Checks (λ _. Unit {0}) (addressed ctx imm results operands)
addressed-Checks ctx (Imm.load_or_store natural alignment_log2 offset memory) rs os fits h =
    let (t, e) = memory_at ctx memory h in ground (arith, e)
addressed-Checks ctx (Imm.load_or_store_lane natural lanes alignment_log2 offset memory lane) rs os
      fits h =
    let (t, e) = memory_at ctx memory h in ground (arith, e)
addressed-Checks ctx (Imm.atomic_load_or_store natural alignment_log2 offset memory) rs os fits h =
    let (t, e) = memory_at ctx memory h in ground (arith, e)
addressed-Checks ctx imm rs os fits h = absurd fits

size_signature-Checks :
    (ctx : Context) (imm : Imm)
    → SizeImm imm
    → InRange ctx imm
    → Checks (λ _. Unit {0}) (size_signature ctx imm)
unfolding size_signature
size_signature-Checks ctx (Imm.memory memory) fits h =
    let (t, e) = memory_at ctx memory h in ground (arith, e)
size_signature-Checks ctx (Imm.table table) fits h =
    let (t, e) = table_at ctx table h in ground (arith, e)
size_signature-Checks ctx imm fits h = absurd fits

memory_signature-Checks :
    (ctx : Context) (imm : Imm)
    → MemoryImm imm
    → InRange ctx imm
    → Checks (λ _. Unit {0}) (grow_signature ctx imm)
      × Checks (λ _. Unit {0}) (fill_signature ctx imm)
unfolding grow_signature fill_signature
memory_signature-Checks ctx (Imm.memory memory) fits h =
    let (t, e) = memory_at ctx memory h in (ground (arith, e), ground (arith, e))
memory_signature-Checks ctx imm fits h = absurd fits

init_signature-Checks :
    (ctx : Context) (imm : Imm)
    → InitImm imm
    → InRange ctx imm
    → Checks (λ _. Unit {0}) (init_signature ctx imm)
unfolding init_signature
init_signature-Checks ctx (Imm.data_segment_and_mem segment memory) fits h =
    let (t, e) = memory_at ctx memory h in ground (arith, e)
init_signature-Checks ctx (Imm.elem_segment_and_table segment table) fits h =
    let (t, e) = table_at ctx table h in ground (arith, e)
init_signature-Checks ctx imm fits h = absurd fits

copies_signature-Checks :
    (ctx : Context) (imm : Imm)
    → CopyImm imm
    → InRange ctx imm
    → Checks (λ _. Unit {0}) (copies_signature ctx imm)
unfolding copies_signature
copies_signature-Checks ctx (Imm.memory_copy dest source) fits h =
    let (d, p) = memory_at ctx dest h.0 in
    let (s, q) = memory_at ctx source h.1 in ground (arith, p, q)
copies_signature-Checks ctx (Imm.table_copy dest source) fits h =
    let (d, p) = table_at ctx dest h.0 in
    let (s, q) = table_at ctx source h.1 in ground (arith, p, q)
copies_signature-Checks ctx imm fits h = absurd fits

vectors-Checks : (n : ℕ) → IsVectors n → (vs : TypeTuple) × (vectors n ≡ ok vs)
vectors-Checks n (inl e) = (replicate 2 ValueType.v128, rw e refl)
vectors-Checks n (inr (inl e)) = (replicate 3 ValueType.v128, rw e refl)
vectors-Checks n (inr (inr e)) = (replicate 4 ValueType.v128, rw e refl)

-- Once the immediate of an operator is validated, its signature can be computed.
pub signature_of-Checks :
    (ctx : Context) (sig : Signature) (imm : Imm)
    → Fits sig imm
    → InRange ctx imm
    → Checks (λ _. Unit {0}) (signature_of ctx sig imm)
unfolding signature_of
signature_of-Checks ctx (Signature.monomorphic sig) imm fits h = tt
signature_of-Checks ctx (Signature.load type) imm fits h = addressed-Checks ctx imm _ _ fits h
signature_of-Checks ctx (Signature.store type) imm fits h = addressed-Checks ctx imm _ _ fits h
signature_of-Checks ctx Signature.load_lane imm fits h = addressed-Checks ctx imm _ _ fits h
signature_of-Checks ctx Signature.store_lane imm fits h = addressed-Checks ctx imm _ _ fits h
signature_of-Checks ctx (Signature.load_vectors n) imm fits h =
    let (vs, e) = vectors-Checks n fits.1 in rw e (addressed-Checks ctx imm vs [] fits.0 h)
signature_of-Checks ctx (Signature.store_vectors n) imm fits h =
    let (vs, e) = vectors-Checks n fits.1 in rw e (addressed-Checks ctx imm [] vs fits.0 h)
signature_of-Checks ctx Signature.size imm fits h = size_signature-Checks ctx imm fits h
signature_of-Checks ctx Signature.grow imm fits h = (memory_signature-Checks ctx imm fits h).0
signature_of-Checks ctx Signature.init imm fits h = init_signature-Checks ctx imm fits h
signature_of-Checks ctx Signature.copy imm fits h = copies_signature-Checks ctx imm fits h
signature_of-Checks ctx Signature.fill imm fits h = (memory_signature-Checks ctx imm fits h).1
signature_of-Checks ctx Signature.notify imm fits h = addressed-Checks ctx imm _ _ fits h
signature_of-Checks ctx Signature.wait32 imm fits h = addressed-Checks ctx imm _ _ fits h
signature_of-Checks ctx Signature.wait64 imm fits h = addressed-Checks ctx imm _ _ fits h
signature_of-Checks ctx (Signature.atomic_rmw type) imm fits h = addressed-Checks ctx imm _ _ fits h
signature_of-Checks ctx (Signature.atomic_cmpxchg type) imm fits h =
    addressed-Checks ctx imm _ _ fits h
