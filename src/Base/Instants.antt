-- ===== src/Base/Instants.antt =====
-- time.Time as a count of nanoseconds from the earliest instant that it can hold, 2^63 seconds
-- before the zero time, and the comparisons of the time package.
use Prim.Native.Nat.{ℕ, ◌*◌, ◌^◌, ◌+◌, ◌-◌}
use mathlib.Core.Bool.{Bool}
use go_label.Base.Tests.{ltb, nat_eq}
use go_label.Base.Int64.{ℤ, pos_part, neg_part}

abbrev pub Time : Type 0
Time = ℕ

abbrev pub nanoseconds : ℕ → ℕ
nanoseconds s = s * 1_000_000_000

abbrev pub minute : ℕ
minute = 60_000_000_000

-- The zero time, 0001-01-01 00:00 UTC.
abbrev pub zero_time : Time
zero_time = nanoseconds (2 ^ 63)

abbrev pub before : Time → Time → Bool
before a b = ltb a b

abbrev pub after : Time → Time → Bool
after a b = ltb b a

abbrev pub is_zero : Time → Bool
is_zero t = nat_eq t zero_time

-- `t.Add(d)`: an instant before the earliest one is not modelled.
abbrev pub add_duration : Time → ℤ → Time
add_duration t d = t + pos_part d - neg_part d
