-- ===== src/Tests/Resources.antt =====
-- A memory of two pages that may have four, under a quota of eight of which five are charged.
use wavm.Prelude.{ℕ, ◌+◌, ◌≤◌, ◌≡◌, ◌↔◌, refl, true, false, some, Bool, arith}
use wavm.Ir.Types.{IndexType}
use wavm.Runtime.Memory.{Memory, success, grow_memory, validated_offset_range}
use wavm.Runtime.Memory.Growth.{
  IsGrowth, Grows, allocate_iff, grow_memory-IsGrowth, grow_memory_succeeds,
}
use wavm.Runtime.Memory.Ranges.{validated_offset_range_iff}
use wavm.Runtime.Quota.{CurrentAndMax, allocate}

abbrev small : Memory
small = record {
  id = 0;
  type = record {
    is_shared = false;
    index_type = IndexType.i32;
    size = record { min = 1; max = 4 };
  };
  num_reserved_bytes = 8589934592;
  num_pages = 2;
  published = 2;
  registered = 32;
}

abbrev quota : CurrentAndMax
quota = record { current = 5; max = 8 }

-- A host with pages of 4 KiB that always commits them.
abbrev commit : ℕ → ℕ → Bool
commit offset pages = true

grow_memory-IsGrowth_example :
    Grows (grow_memory 4 commit small (some quota) 2) (IsGrowth small quota 3 2)
grow_memory-IsGrowth_example =
    grow_memory-IsGrowth 4 commit small quota 3 2 refl (omega arith) (omega arith) (omega arith)
      (omega arith)

grow_memory_succeeds_example :
    Grows
      (grow_memory 4 commit small (some quota) 2)
      (λ g. (g.result ≡ success) × (g.old_num_pages ≡ some 2))
grow_memory_succeeds_example =
    grow_memory_succeeds 4 commit small quota 2 (omega arith) (omega arith) (omega arith)
      (omega arith) (omega arith) refl

allocate_iff_example : ((allocate quota 3).0 ≡ true) ↔ (8 ≤ 8)
allocate_iff_example = allocate_iff quota 3 (omega arith) (omega arith) (omega arith)

abbrev first : ℕ
first = 131000

validated_offset_range_iff_example :
    (validated_offset_range 131072 first 72 ≡ some first)
    ↔ ((first + 72 ≤ 131072) × (first ≡ first))
validated_offset_range_iff_example =
    validated_offset_range_iff 131072 first 72 first (omega arith) (omega arith) (omega arith)
