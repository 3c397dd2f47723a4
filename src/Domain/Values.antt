-- ===== src/Domain/Values.antt =====
-- The values that the structs are made of.
use tripvault.Base.{ℕ}
use tripvault.Base.Int64.{Int64}

-- `uuid.UUID`: identifiers are only compared.
abbrev pub Uuid : Type 0
Uuid = ℕ

-- `Money`, an `int64` of hundredths.
abbrev pub Money : Type 0
Money = Int64

-- `ClockTime`, an `int` of minutes after midnight.
abbrev pub ClockTime : Type 0
ClockTime = Int64

-- `time.Time` in UTC, as nanoseconds since the first of January of the year 1.
abbrev pub Time : Type 0
Time = ℕ

-- `float64`, as its IEEE 754 bit pattern.
abbrev pub Float64 : Type 0
Float64 = ℕ

-- `Point`
pub record Point : Type 0 where
  pub lat : Float64
  pub lng : Float64
