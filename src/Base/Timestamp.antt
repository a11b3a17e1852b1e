-- ===== src/Base/Timestamp.antt =====
-- The class `Timestamp` of winterfell/base/wf_timestamp.h and winterfell/base/wf_timestamp.cc: a
-- signed number of microseconds. Sums and differences are those of the integers: a run stays far
-- from the limits of `int64_t` (the year 292277).
pub mod Text
use winterfell.Prelude.{ℕ, ◌+◌, ◌/◌, ◌%◌, Bool, not}
use winterfell.Prelude.Int.{ℤ, pos, negsuc, ◌+ℤ◌, ◌-ℤ◌, ◌*ℤ◌, ltb_ℤ}

pub record Timestamp : Type 0 where
  pub micro_seconds : ℤ

abbrev pub micro_seconds_per_second : ℕ
micro_seconds_per_second = 1_000_000

-- The default constructor.
abbrev pub zero_time : Timestamp
zero_time = record { micro_seconds = pos 0 }

unfoldable pub valid : Timestamp → Bool
valid t = not (ltb_ℤ t.micro_seconds (pos 0))

-- `a / n` and `a % n` of signed integers round towards zero.
abbrev pub quot : ℤ → ℕ → ℤ
quot (pos a) n = pos (a / n)
quot (negsuc a) n = pos 0 -ℤ pos ((a + 1) / n)

abbrev pub rem : ℤ → ℕ → ℤ
rem (pos a) n = pos (a % n)
rem (negsuc a) n = pos 0 -ℤ pos ((a + 1) % n)

unfoldable pub seconds_since_epoch : Timestamp → ℤ
seconds_since_epoch t = quot t.micro_seconds micro_seconds_per_second

unfoldable pub from_unix_time : ℤ → ℤ → Timestamp
from_unix_time t micro = record { micro_seconds = t *ℤ pos micro_seconds_per_second +ℤ micro }

-- `operator<`
unfoldable pub before : Timestamp → Timestamp → Bool
before a b = ltb_ℤ a.micro_seconds b.micro_seconds

unfoldable pub sub : Timestamp → Timestamp → Timestamp
sub a b = record { micro_seconds = a.micro_seconds -ℤ b.micro_seconds }
