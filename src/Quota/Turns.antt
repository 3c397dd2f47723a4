-- ===== src/Quota/Turns.antt =====
-- The operations that `Reserve` lets in, one at a time: what the files may come to.
use tripvault.Base.{ℕ, ◌≤◌, ◌<◌, max, Option, none, some, ◌≡◌, ◌≢◌, refl, arith}
use tripvault.Base.Int64.{Int64, IsNonneg, word}
use tripvault.Quota.{reserve, Stores, StorageUsage, got, failed, Fault, unlock, usage, used_bytes}
use tripvault.Quota.Bound.{after, reserve_exact}

-- The stores, and what the operation that holds the lock may bring the files to at most.
pub record Site : Type 0 where
  pub stores : Stores
  pub ceiling : Option ℕ

-- What the stores come to, if they can be measured.
abbrev pub Measures : Int64 → Stores → ℕ → Type 0
Measures limit stores n = (u : StorageUsage) × (usage limit stores ≡ got u) × (used_bytes u ≡ n)

-- One step. An operation that was let in keeps to the growth that it asked for while it works, in
-- any number of writes, and releases the lock when it ends, successful or not.
pub data Step (limit : Int64) (s t : Site) : Type 0 where
  admit :
      (growth : Int64) (used : ℕ)
      → growth < word
      → s.ceiling ≡ none
      → Measures limit s.stores used
      → reserve limit s.stores growth ≡ got unlock
      → t ≡ record s { ceiling = some (after used growth) }
      → Step limit s t
  refuse :
      (growth : Int64) (fault : Fault)
      → s.ceiling ≡ none
      → reserve limit s.stores growth ≡ failed fault
      → t ≡ s
      → Step limit s t
  write :
      (most used used' : ℕ) (stores' : Stores)
      → s.ceiling ≡ some most
      → Measures limit s.stores used
      → Measures limit stores' used'
      → used' ≤ max used most
      → t ≡ record s { stores = stores' }
      → Step limit s t
  finish : (most : ℕ) → s.ceiling ≡ some most → t ≡ record s { ceiling = none } → Step limit s t

pub data Reach (limit : Int64) (s : Site) : Site → Type 0 where
  here : Reach limit s s
  next : {t u : Site} → Reach limit s t → Step limit t u → Reach limit s u

abbrev pub CeilingFits : Int64 → Option ℕ → Type 0
CeilingFits limit none = Unit
CeilingFits limit (some most) = most ≤ limit

-- The files fit the limit, and so does what the running operation may bring them to.
abbrev pub FitsLimit : Int64 → Site → Type 0
FitsLimit limit s = ((n : ℕ) → Measures limit s.stores n → n ≤ limit) × CeilingFits limit s.ceiling

measured_once :
    (limit : Int64) (stores : Stores) (m n : ℕ)
    → Measures limit stores m
    → Measures limit stores n
    → m ≡ n
measured_once limit stores m n (u, eu, hu) (v, ev, hv) = ground (arith, eu, ev, hu, hv)

module _ (limit : Int64) (some_limit : limit ≢ 0) (nonneg : IsNonneg limit) where
  Step-FitsLimit : (s t : Site) → Step limit s t → FitsLimit limit s → FitsLimit limit t
  Step-FitsLimit s t (admit growth used hg idle (u, eu, hu) granted e) (fits, room) =
      let exact =
        reserve_exact limit s.stores growth u some_limit nonneg hg eu
          (omega (arith, fits (used_bytes u) (u, eu, refl), nonneg)) in
      rw e (fits, ground (arith, exact, granted, hu))
  Step-FitsLimit s t (refuse growth fault idle refused e) h = rw e h
  Step-FitsLimit s t (write most used used' stores' holds before now grown e) (fits, room) =
      let kept : most ≤ limit = rw holds at room in
      rw e (
        λ n m.
            omega (arith, measured_once limit stores' n used' m now, grown, kept, fits used before),
        room,
      )
  Step-FitsLimit s t (finish most holds e) (fits, room) = rw e (fits, tt)

  -- Whatever operations are let in, one after the other, and however much of its growth each of
  -- them writes, successful or not: from stores that fit the limit the files never come to more
  -- than the limit, as long as every operation holds the lock while it writes and keeps to the
  -- growth that it asked for. The limit is not zero, which would mean none.
  pub Reach-FitsLimit : (s t : Site) → FitsLimit limit s → Reach limit s t → FitsLimit limit t
  Reach-FitsLimit s t h here = h
  Reach-FitsLimit s t h (next {t = u} r st) = Step-FitsLimit u t st (Reach-FitsLimit s u h r)
