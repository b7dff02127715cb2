-- ===== src/Runtime/Memory/Growth.antt =====
-- Growth of a memory, and the quota that it is charged to.
use wavm.Prelude.{
  ℕ, zero, suc, ◌+◌, ◌-◌, ◌*◌, ◌%◌, ◌^◌, ◌≤◌, ◌<◌, ◌≡◌, ◌↔◌, ◌⊎◌, ◌≢◌, ap, refl, Bool, true, false,
  Option, some, none, ltb, leb, arith, Bool-cases, inl, inr,
}
use wavm.Ir.Types.{MemoryType}
use wavm.Runtime.Memory.{
  Memory, GrowResult, success, out_of_memory, out_of_max_size, Grown, page_limit, exceeds_max_size,
  grow_memory, grow_charged, give_back,
}
use wavm.Runtime.Quota.{CurrentAndMax, allocate, free}

-- The quota with `delta` more charged.
abbrev pub with_charge : CurrentAndMax → ℕ → CurrentAndMax
with_charge q delta = record q { current = q.current + delta }

allocate_allowed :
    (q : CurrentAndMax) (delta : ℕ)
    → q.max < 2 ^ 64
    → q.current + delta ≤ q.max
    → allocate q delta ≡ (true, with_charge q delta)
unfolding allocate
allocate_allowed q delta hm h =
    let e : (q.current + delta) % 2 ^ 64 ≡ q.current + delta = omega arith in
    let a : ltb (q.current + delta) q.current ≡ false = ground arith in
    let b : ltb q.max (q.current + delta) ≡ false = ground arith in rw (e, a, b) refl

allocate_refused :
    (q : CurrentAndMax) (delta : ℕ)
    → q.current < 2 ^ 64
    → delta < 2 ^ 64
    → q.max < q.current + delta
    → allocate q delta ≡ (false, q)
unfolding allocate
allocate_refused q delta hc hd h =
    elim (Bool-cases (ltb ((q.current + delta) % 2 ^ 64) q.current)) [
      | inl wrapped ↦ rw wrapped refl
      | inr fits ↦
          let b : ltb q.max ((q.current + delta) % 2 ^ 64) ≡ true = ground arith in
          rw (fits, b) refl
    ]

free_charged :
    (q : CurrentAndMax) (delta : ℕ)
    → q.current + delta < 2 ^ 64
    → free (with_charge q delta) delta ≡ some q
unfolding free
free_charged q delta h =
    let e : (q.current + delta + 2 ^ 64 - delta) % 2 ^ 64 ≡ q.current = omega arith in
    let a : leb q.current (q.current + delta) ≡ true = ground arith in rw (e, a) refl

-- For 64-bit values, a quota allows a charge if and only if the true sum is within its maximum.
pub allocate_iff :
    (q : CurrentAndMax) (delta : ℕ)
    → q.current < 2 ^ 64
    → q.max < 2 ^ 64
    → delta < 2 ^ 64
    → ((allocate q delta).0 ≡ true) ↔ (q.current + delta ≤ q.max)
unfolding allocate
allocate_iff q delta hq hm hd = (ground arith, ground arith)

pub exceeds_max_size_iff :
    (memory : Memory) (delta : ℕ)
    → (exceeds_max_size memory delta ≡ false) ↔ (
        (memory.num_pages + delta ≤ memory.type.size.max)
        × (memory.num_pages + delta ≤ page_limit memory.type))
unfolding exceeds_max_size
exceeds_max_size_iff memory delta = (ground arith, ground arith)

page_limit_small : (type : MemoryType) → page_limit type ≤ 16777216
page_limit_small type = ground arith

-- What growing a memory by `delta` pages has come to.
pub record IsGrowth (memory : Memory) (q : CurrentAndMax) (others delta : ℕ) (g : Grown)
    : Type 0 where
  pub charged : g.quota ≡ some (record q { current = others + g.memory.num_pages })
  pub bounded : g.memory.num_pages ≤ page_limit memory.type
  pub outcome :
      ((g.result ≡ success) × (g.memory.num_pages ≡ memory.num_pages + delta))
      ⊎ ((g.result ≢ success) × (g.memory ≡ memory))

abbrev pub Grows : Option Grown → (Grown → Type 0) → Type 0
Grows none P = ⊥
Grows (some g) P = P g

module _ (pages_log2 : ℕ) (commit : ℕ → ℕ → Bool) (memory : Memory) (q : CurrentAndMax)
    (others : ℕ) where
  given_back :
      (result : GrowResult) (delta : ℕ)
      → q.current ≡ others + memory.num_pages
      → memory.num_pages ≤ page_limit memory.type
      → q.current + delta < 2 ^ 64
      → result ≢ success
      → Grows
          (give_back pages_log2 commit result memory (some (with_charge q delta)) delta)
          (IsGrowth memory q others delta)
  given_back result delta hq hp hb h = rw (free_charged q delta hb) (record {
    charged = ap (λ c. some (record q { current = c })) hq;
    bounded = hp;
    outcome = inr (h, refl);
  })

  after_charge :
      (delta : ℕ)
      → q.current ≡ others + memory.num_pages
      → memory.num_pages ≤ page_limit memory.type
      → q.current + delta < 2 ^ 64
      → Grows
          (grow_charged pages_log2 commit memory (some (with_charge q delta)) delta)
          (IsGrowth memory q others delta)
  after_charge delta hq hp hb = elim (Bool-cases (exceeds_max_size memory delta)) [
    | inl exceeds ↦ rw exceeds (given_back out_of_max_size delta hq hp hb (λ e. cc))
    | inr fits ↦
        elim (Bool-cases
          (commit (memory.num_pages * 65536 % 2 ^ 64) (delta * 2 ^ pages_log2 % 2 ^ 64))) [
            | inr failed ↦ rw (fits, failed) (given_back out_of_memory delta hq hp hb (λ e. cc))
            | inl done ↦
                let bounds = (exceeds_max_size_iff memory delta).0 fits in
                let small = page_limit_small memory.type in
                let e : (memory.num_pages + delta) % 2 ^ 64 ≡ memory.num_pages + delta =
                  omega (arith, bounds.1, small) in
                rw (fits, done, e)
                  (record {
                    charged = ap (λ c. some (record q { current = c })) (omega arith);
                    bounded = bounds.1;
                    outcome = inl (refl, refl);
                  })
          ]
  ]

  -- Growing a memory that shares its quota with holders of `others` pages or elements fails no
  -- assertion, and afterwards the quota is charged for exactly the pages of all holders again. The
  -- memory stays within the limit of its index type; either the result is success and it has
  -- `delta` pages more, or it is a failure and the memory is unchanged. The quota and the request
  -- have to fit 64 bits.
  pub grow_memory-IsGrowth :
      (delta : ℕ)
      → q.current ≡ others + memory.num_pages
      → memory.num_pages ≤ page_limit memory.type
      → q.current < 2 ^ 64
      → q.max < 2 ^ 64
      → delta < 2 ^ 64
      → Grows (grow_memory pages_log2 commit memory (some q) delta) (IsGrowth memory q others delta)
  unfolding grow_memory
  grow_memory-IsGrowth zero hq hp hc hm hd = record {
    charged = ap (λ c. some (record q { current = c })) hq;
    bounded = hp;
    outcome = inl (refl, omega arith);
  }
  grow_memory-IsGrowth (suc n) hq hp hc hm hd = elim (Bool-cases (leb (q.current + suc n) q.max)) [
    | inr over ↦ rw (allocate_refused q (suc n) hc hd (ground arith)) (record {
      charged = ap (λ c. some (record q { current = c })) hq;
      bounded = hp;
      outcome = inr (λ e. cc, refl);
    })
    | inl within ↦
        rw (allocate_allowed q (suc n) hm (ground arith))
          (after_charge (suc n) hq hp (ground arith))
  ]

module _ (pages_log2 : ℕ) (commit : ℕ → ℕ → Bool) (memory : Memory) (q : CurrentAndMax) where
  -- A request for at least one page succeeds, and reports the old size, if the quota, the maximum
  -- of the memory's type and the limit of its index type all have room for it and the host commits
  -- the pages.
  pub grow_memory_succeeds :
      (delta : ℕ)
      → 0 < delta
      → q.max < 2 ^ 64
      → q.current + delta ≤ q.max
      → memory.num_pages + delta ≤ memory.type.size.max
      → memory.num_pages + delta ≤ page_limit memory.type
      → commit (memory.num_pages * 65536 % 2 ^ 64) (delta * 2 ^ pages_log2 % 2 ^ 64) ≡ true
      → Grows
          (grow_memory pages_log2 commit memory (some q) delta)
          (λ g. (g.result ≡ success) × (g.old_num_pages ≡ some memory.num_pages))
  unfolding grow_memory
  grow_memory_succeeds zero h hm a b c d = absurd (omega arith)
  grow_memory_succeeds (suc n) h hm a b c d =
      let fits = (exceeds_max_size_iff memory (suc n)).1 (b, c) in
      rw (allocate_allowed q (suc n) hm a, fits, d) (refl, refl)
