-- ===== src/Quota/Bound.antt =====
-- The test of `Reserve` against plain arithmetic.
use tripvault.Base.{leb, ℕ, ◌+◌, ◌-◌, ◌≤◌, ◌<◌, false, ◌≡◌, ◌≢◌, ◌↔◌, arith, if◌then◌else◌}
use tripvault.Base.Int64.{Int64, IsNonneg, is_neg, abs64, word}
use tripvault.Quota.{
  exceeds, clamped, reserve, Stores, StorageUsage, got, failed, unlock, usage, used_bytes,
  storage_quota,
}

-- What is used once an operation has grown it, as a number without a bound: a negative growth
-- takes away what there is at most.
abbrev pub after : ℕ → Int64 → ℕ
after used growth = if is_neg growth then used - abs64 growth else used + growth

pub exceeds_iff :
    (used limit growth : Int64)
    → IsNonneg used
    → IsNonneg limit
    → growth < word
    → (exceeds used limit (clamped used growth) ≡ false) ↔ (after used growth ≤ limit)
unfolding exceeds
exceeds_iff used limit growth hu hl hg = ground arith

usage-limit_bytes :
    (limit : Int64) (stores : Stores) (u : StorageUsage)
    → usage limit stores ≡ got u
    → u.limit_bytes ≡ limit
unfolding usage
usage-limit_bytes limit stores u measured = ground arith

reserve_measured :
    (limit : Int64) (stores : Stores) (growth : Int64) (u : StorageUsage)
    → limit ≢ 0
    → usage limit stores ≡ got u
    → reserve limit stores growth ≡ (
        if exceeds (used_bytes u) limit (clamped (used_bytes u) growth)
        then failed storage_quota
        else got unlock)
reserve_measured limit stores growth u some_limit measured =
    let e = usage-limit_bytes limit stores u measured in
    unfold reserve in (rw measured (ground (arith, e)))

-- Under a limit and with both stores measured, `Reserve` grants exactly the operations after which
-- the files fit the limit, and refuses every other with the quota error. The 64-bit sums of its
-- test never wrap around for used bytes and a limit that are not negative.
pub reserve_exact :
    (limit : Int64) (stores : Stores) (growth : Int64) (u : StorageUsage)
    → limit ≢ 0
    → IsNonneg limit
    → growth < word
    → usage limit stores ≡ got u
    → IsNonneg (used_bytes u)
    → reserve limit stores growth
      ≡ (if leb (after (used_bytes u) growth) limit then got unlock else failed storage_quota)
unfolding reserve
reserve_exact limit stores growth u some_limit hl hg measured hu =
    rw (reserve_measured limit stores growth u some_limit measured)
      (ground (arith, exceeds_iff (used_bytes u) limit growth hu hl hg))
