-- ===== src/Base/Clock.antt =====
-- `time.Time` as nanoseconds since Go's zero time, and `time.Duration` as an integer of
-- nanoseconds. Saturation at the ends of the ranges is not modelled; an instant before the zero
-- time is read as the zero time.
use Prim.Native.Nat.{ℕ, ◌+◌, ◌-◌, ◌*◌}
use mathlib.Core.Bool.{Bool}
use synapse_go.Base.Tests.{ltb, ◌==◌}
use synapse_go.Base.Int.{ℤ, pos_part, neg_part, sub_ℕ}

abbrev pub Time : Type 0
Time = ℕ

abbrev pub Duration : Type 0
Duration = ℤ

abbrev pub is_zero : Time → Bool
is_zero t = t == 0

-- `t.Add(d)`
abbrev pub add_time : Time → Duration → Time
add_time t d = t + pos_part d - neg_part d

-- `t.Sub(u)`
abbrev pub sub_time : Time → Time → Duration
sub_time t u = sub_ℕ t u

-- `t.After(u)`; `u.Before(t)` is the same.
abbrev pub after : Time → Time → Bool
after t u = ltb u t

abbrev pub seconds : ℕ → ℕ
seconds n = n * 1000000000
