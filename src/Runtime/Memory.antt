-- ===== src/Runtime/Memory.antt =====
-- WebAssembly memories: growth and address ranges of Lib/Runtime/Memory.cpp, on a 64-bit host.
-- The memory's bytes are not modelled. A quota that other memories and tables share is passed and
-- returned next to the memory.
pub mod Growth
pub mod Ranges
use wavm.Prelude.{
  ℕ, zero, suc, ◌+◌, ◌-◌, ◌*◌, ◌%◌, ◌^◌, Bool, true, false, not, ◌||◌, Option, some, none, ltb, leb,
  ◌==◌, min, if◌then◌else◌, map_option,
}
use wavm.Ir.Types.{
  MemoryType, IndexType, index_type_eq, max_memory32_pages, max_memory64_pages, num_bytes_per_page,
  uptr_max,
}
use wavm.Runtime.Quota.{CurrentAndMax, allocate, free}

-- `published` is the number of pages in the compartment's runtime data, and `registered` the
-- number of platform pages that are registered as allocated.
pub record Memory : Type 0 where
  pub id : ℕ
  pub type : MemoryType
  pub num_reserved_bytes : ℕ
  pub num_pages : ℕ
  pub published : ℕ
  pub registered : ℕ

pub data GrowResult : Type 0 where
  success out_of_memory out_of_quota out_of_max_size : GrowResult

pub record Grown : Type 0 where
  pub result : GrowResult
  pub memory : Memory
  pub quota : Option CurrentAndMax
  -- `outOldNumPages`, if it is written
  pub old_num_pages : Option ℕ

abbrev pub max_memory64_wasm_pages : ℕ
max_memory64_wasm_pages = 16777216

-- `maxMemoryPages`
abbrev pub page_limit : MemoryType → ℕ
page_limit type =
    if index_type_eq type.index_type IndexType.i32
    then max_memory32_pages
    else min max_memory64_wasm_pages max_memory64_pages

abbrev pub allocate_pages : Option CurrentAndMax → ℕ → Bool × Option CurrentAndMax
allocate_pages none delta = (true, none)
allocate_pages (some q) delta = let r = allocate q delta in (r.0, some r.1)

-- The outer `none` is an assertion that fails.
abbrev pub free_pages : Option CurrentAndMax → ℕ → Option (Option CurrentAndMax)
free_pages none delta = some none
free_pages (some q) delta = map_option (λ r. some r) (free q delta)

unfoldable pub exceeds_max_size : Memory → ℕ → Bool
exceeds_max_size memory delta =
    ltb memory.type.size.max delta
    || ltb (memory.type.size.max - delta) memory.num_pages
    || ltb (page_limit memory.type) delta
    || ltb (page_limit memory.type - delta) memory.num_pages

-- `getPlatformPagesPerWebAssemblyPageLog2` and `Platform::commitVirtualPages`, from an offset in
-- the memory, depend on the host.
module _ (pages_log2 : ℕ) (commit : ℕ → ℕ → Bool) where
  abbrev pub platform_pages : ℕ → ℕ
  platform_pages n = n * 2 ^ pages_log2 % 2 ^ 64

  abbrev pub committed : Memory → ℕ → Memory
  committed memory delta = record memory {
    num_pages = (memory.num_pages + delta) % 2 ^ 64;
    registered = (memory.registered + platform_pages delta) % 2 ^ 64;
    published =
        if memory.id == uptr_max then memory.published else (memory.num_pages + delta) % 2 ^ 64;
  }

  -- A failure after the quota was charged gives it back.
  abbrev pub give_back : GrowResult → Memory → Option CurrentAndMax → ℕ → Option Grown
  give_back result memory quota delta =
      map_option (λ q. record { result = result; memory = memory; quota = q; old_num_pages = none })
        (free_pages quota delta)

  abbrev pub grow_charged : Memory → Option CurrentAndMax → ℕ → Option Grown
  grow_charged memory quota delta =
      if exceeds_max_size memory delta
      then give_back GrowResult.out_of_max_size memory quota delta
      else (if not (commit (memory.num_pages * num_bytes_per_page % 2 ^ 64) (platform_pages delta))
          then give_back GrowResult.out_of_memory memory quota delta
          else some (record {
            result = GrowResult.success;
            memory = committed memory delta;
            quota = quota;
            old_num_pages = some memory.num_pages;
          }))

  unfoldable pub grow_memory : Memory → Option CurrentAndMax → ℕ → Option Grown
  grow_memory memory quota zero = some (record {
    result = GrowResult.success;
    memory = memory;
    quota = quota;
    old_num_pages = some memory.num_pages;
  })
  grow_memory memory quota (suc n) =
      let charged = allocate_pages quota (suc n) in
      if not charged.0
      then some (record {
        result = GrowResult.out_of_quota;
        memory = memory;
        quota = quota;
        old_num_pages = none;
      })
      else grow_charged memory charged.1 (suc n)

-- `getValidatedMemoryOffsetRangeImpl`: the offset in the memory, or none if the exception
-- `outOfBoundsMemoryAccess` is thrown. The assertion that the memory has a base address is left out:
-- the address is not part of the model.
unfoldable pub validated_offset_range : ℕ → ℕ → ℕ → Option ℕ
validated_offset_range memory_num_bytes address num_bytes =
    if ltb memory_num_bytes ((address + num_bytes) % 2 ^ 64)
      || ltb ((address + num_bytes) % 2 ^ 64) address
    then none
    else some (min address ((memory_num_bytes + 2 ^ 64 - min num_bytes memory_num_bytes) % 2 ^ 64))

unfoldable pub get_validated_memory_offset_range : Memory → ℕ → ℕ → Option ℕ
unfolding validated_offset_range
get_validated_memory_offset_range memory address num_bytes =
    validated_offset_range (memory.num_pages * num_bytes_per_page % 2 ^ 64) address num_bytes

unfoldable pub get_reserved_memory_offset_range : Memory → ℕ → ℕ → Option ℕ
unfolding validated_offset_range
get_reserved_memory_offset_range memory address num_bytes =
    validated_offset_range memory.num_reserved_bytes address num_bytes
