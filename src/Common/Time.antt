-- ===== src/Common/Time.antt =====
-- Go's time.Time and time.Duration: integers of nanoseconds, a time counted from the zero time
-- (1 January of the year 1, UTC). A time has no bounds here. A duration is an int64: the difference
-- of two times saturates, and a sum of durations wraps.
use Prim.Native.Nat.{ℕ, ◌-◌, ◌%◌}
use mathlib.Core.Bool.{Bool}
use gress.Common.Int.{ℤ, pos, negsuc, ◌-ℤ◌, ◌+ℤ◌, ltb_ℤ, eqb_ℤ}
use gress.Common.Tests.{if◌then◌else◌, ltb}

-- time.Time{}
abbrev pub zero_time : ℤ
zero_time = pos 0

-- t.IsZero()
abbrev pub is_zero : ℤ → Bool
is_zero t = eqb_ℤ t zero_time

abbrev pub saturate : ℤ → ℤ
saturate d =
    if ltb_ℤ (pos 9223372036854775807) d
    then pos 9223372036854775807
    else if ltb_ℤ d (negsuc 9223372036854775807)
    then negsuc 9223372036854775807
    else d

-- t.Sub(u)
unfoldable pub sub_time : ℤ → ℤ → ℤ
unfolding ◌-ℤ◌
sub_time t u = saturate (t -ℤ u)

-- A sum of durations, which wraps: the value of the low 64 bits, read as a signed number.
abbrev pub signed_64 : ℕ → ℤ
signed_64 k = if ltb k 9223372036854775808 then pos k else negsuc (18446744073709551615 - k)

abbrev pub wrap_64 : ℤ → ℤ
wrap_64 (pos n) = signed_64 (n % 18446744073709551616)
wrap_64 (negsuc n) = signed_64 (18446744073709551615 - n % 18446744073709551616)

-- d + e
abbrev pub add_duration : ℤ → ℤ → ℤ
add_duration d e = wrap_64 (d +ℤ e)

abbrev pub second : ℤ
second = pos 1000000000
