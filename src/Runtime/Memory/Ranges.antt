-- ===== src/Runtime/Memory/Ranges.antt =====
-- The ranges of addresses that are handed out.
use wavm.Prelude.{ℕ, ◌+◌, ◌^◌, ◌≤◌, ◌<◌, ◌≡◌, ◌↔◌, some, arith}
use wavm.Runtime.Memory.{validated_offset_range}

-- For 64-bit addresses and sizes, a range is handed out if and only if it ends within the
-- memory, its address plus its size not wrapped, and then it begins at the address.
pub validated_offset_range_iff :
    (memory_num_bytes address num_bytes offset : ℕ)
    → memory_num_bytes < 2 ^ 64
    → address < 2 ^ 64
    → num_bytes < 2 ^ 64
    → (validated_offset_range memory_num_bytes address num_bytes ≡ some offset)
      ↔ ((address + num_bytes ≤ memory_num_bytes) × (offset ≡ address))
unfolding validated_offset_range
validated_offset_range_iff m a n offset hm ha hn = (ground arith, ground arith)
