-- ===== src/Runtime/Quota.antt =====
-- Resource quotas: `ResourceQuota::CurrentAndMax` of Lib/Runtime/RuntimePrivate.h, at the type
-- `Uptr` of a 64-bit host. Each method holds the quota's mutex, so that it is one step.
use wavm.Prelude.{
  ℕ, ◌+◌, ◌-◌, ◌%◌, ◌^◌, Bool, true, false, Option, some, none, ltb, leb, if◌then◌else◌,
}

pub record CurrentAndMax : Type 0 where
  pub current : ℕ
  pub max : ℕ

-- Whether the quota allows it, and the quota after it.
unfoldable pub allocate : CurrentAndMax → ℕ → Bool × CurrentAndMax
allocate q delta =
    if ltb ((q.current + delta) % 2 ^ 64) q.current
    then (false, q)
    else (if ltb q.max ((q.current + delta) % 2 ^ 64)
        then (false, q)
        else (true, record q { current = (q.current + delta) % 2 ^ 64 }))

-- `none` if the assertion fails.
unfoldable pub free : CurrentAndMax → ℕ → Option CurrentAndMax
free q delta =
    if leb ((q.current + 2 ^ 64 - delta) % 2 ^ 64) q.current
    then some (record q { current = (q.current + 2 ^ 64 - delta) % 2 ^ 64 })
    else none

unfoldable pub set_max : CurrentAndMax → ℕ → CurrentAndMax
set_max q new_max = record q { max = new_max }
