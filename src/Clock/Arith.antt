-- ===== src/Clock/Arith.antt =====
-- crates/clock-sync/src/lib.rs, the checked arithmetic: each operation is followed by
-- `.ok_or(ClockSyncError::ArithmeticOverflow)?` in the source.
use dryer.Base.{ℕ, ◌^◌, Option, Result, ok, err, ok_or, ltb, if◌then◌else◌}
use dryer.Base.Int.{
  ℤ, pos, negsuc, ◌+ℤ◌, ◌-ℤ◌, ◌*ℤ◌, checked, checked_div, checked_rem, ltb_ℤ, magnitude,
}
use dryer.Base.Outcome.{◌>>=◌}
use dryer.Clock.{ClockSyncError, arithmetic_overflow}

abbrev pub Fallible : Type 0 → Type 0
Fallible A = Result ClockSyncError A

abbrev pub or_overflow : {A : Type 0} → Option A → Fallible A
or_overflow o = ok_or o arithmetic_overflow

unfoldable pub add : ℤ → ℤ → Fallible ℤ
add a b = or_overflow (checked (a +ℤ b))

unfoldable pub sub : ℤ → ℤ → Fallible ℤ
sub a b = or_overflow (checked (a -ℤ b))

unfoldable pub mul : ℤ → ℤ → Fallible ℤ
mul a b = or_overflow (checked (a *ℤ b))

-- `checked_neg` and `checked_abs`.
unfoldable pub neg : ℤ → Fallible ℤ
neg a = or_overflow (checked (pos 0 -ℤ a))

unfoldable pub abs : ℤ → Fallible ℤ
abs a = or_overflow (checked (pos (magnitude a)))

unfoldable pub div_floor : ℤ → ℤ → Fallible ℤ
div_floor numerator denominator = do
  q ← or_overflow (checked_div numerator denominator)
  r ← or_overflow (checked_rem numerator denominator)
  if ltb_ℤ r (pos 0) then sub q (pos 1) else ok q

unfoldable pub div_ceil : ℤ → ℤ → Fallible ℤ
div_ceil numerator denominator = do
  q ← or_overflow (checked_div numerator denominator)
  r ← or_overflow (checked_rem numerator denominator)
  if ltb_ℤ (pos 0) r then add q (pos 1) else ok q

unfoldable pub div_round_nearest_ties_away : ℤ → ℤ → Fallible ℤ
div_round_nearest_ties_away numerator denominator = do
  q ← or_overflow (checked_div numerator denominator)
  r ← or_overflow (checked_rem numerator denominator)
  size ← abs r
  twice ← mul size (pos 2)
  if ltb_ℤ twice denominator
      then ok q
      else if ltb_ℤ numerator (pos 0)
      then sub q (pos 1)
      else add q (pos 1)

-- `u64::try_from`.
unfoldable pub to_u64 : ℤ → Fallible ℕ
to_u64 (pos n) = if ltb n (2 ^ 64) then ok n else err arithmetic_overflow
to_u64 (negsuc n) = err arithmetic_overflow
