-- ===== src/Clock/TrueClock.antt =====
-- A controller's clock as the physical world has it, against which the estimator of
-- crates/clock-sync/src/lib.rs is conservative. Host time is counted in billionths of a tick and
-- the clock's reading in billionths of a billionth of a tick, so that every constant rate of
-- whole parts per billion is a clock of this kind.
use dryer.Base.{ℕ, ◌+◌, ◌-◌, ◌*◌, ◌≤◌, ◌≡◌, ap, arith}

-- Billionths of a tick.
abbrev pub fine : ℕ → ℕ
fine t = 1_000_000_000 * t

-- The reading of a clock at a controller tick.
abbrev pub reading : ℕ → ℕ
reading c = 1_000_000_000_000_000_000 * c

-- Over any span the clock gains or loses at most `slew` parts per billion of the span.
pub record Slews (slew : ℕ) (clock : ℕ → ℕ) : Type 0 where
  pub at_most : (x d : ℕ) → clock (x + d) ≤ clock x + (1_000_000_000 * d + slew * d)
  pub at_least : (x d : ℕ) → clock x + 1_000_000_000 * d ≤ clock (x + d) + slew * d

-- The same bounds between two instants.
module _ {slew : ℕ} {clock : ℕ → ℕ} (s : Slews slew clock) (x y : ℕ) (h : x ≤ y) where
  span : x + (y - x) ≡ y
  span = omega arith

  products : slew * x + slew * (y - x) ≡ slew * y
  products = omega (arith, ap (λ (t : ℕ). slew * t) span)

  pub later_at_most :
      clock y + (1_000_000_000 * x + slew * x) ≤ clock x + (1_000_000_000 * y + slew * y)
  later_at_most = omega (arith, products, rw span at (s.at_most x (y - x)))

  pub later_at_least :
      clock x + 1_000_000_000 * y + slew * x ≤ clock y + slew * y + 1_000_000_000 * x
  later_at_least = omega (arith, products, rw span at (s.at_least x (y - x)))
