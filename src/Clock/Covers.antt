-- ===== src/Clock/Covers.antt =====
-- An accepted observation of crates/clock-sync/src/lib.rs covers the true offset of the clock at
-- the observation's reference tick.
use dryer.Base.{ℕ, ◌+◌, ◌-◌, ◌*◌, ◌/◌, ◌%◌, ◌≤◌, ◌≡◌, ◌⊎◌, inl, inr, ap, ok, arith}
use dryer.Base.Int.{pos, pos_part, neg_part}
use dryer.Clock.{ClockSample, OffsetObservation}
use dryer.Clock.Observed.{observe_bounded_ok}
use dryer.Clock.Sync.{observe_bounded}
use dryer.Clock.TrueClock.{fine, reading, Slews, later_at_most, later_at_least}

-- The four timestamps of one exchange: the controller received and answered at instants between
-- the host's two timestamps, and stamped both with its own clock.
pub record Exchanged (clock : ℕ → ℕ) (sample : ClockSample) : Type 0 where
  pub received_at : ℕ
  pub answered_at : ℕ
  pub after_send : fine sample.host_send ≤ received_at
  pub in_order : received_at ≤ answered_at
  pub before_receive : answered_at ≤ fine sample.host_receive
  pub received : clock received_at ≡ reading sample.controller_receive
  pub answered : clock answered_at ≡ reading sample.controller_send

-- The true offset at the reference tick lies between the bounds of the observation, but for
-- `slack` below.
pub record Covers (clock : ℕ → ℕ) (slack : ℕ) (o : OffsetObservation) : Type 0 where
  pub not_above :
      clock (fine o.reference_host) + reading (neg_part o.offset_max_ticks)
      ≤ reading (o.reference_host + pos_part o.offset_max_ticks)
  pub not_below :
      reading (o.reference_host + pos_part o.offset_min_ticks)
      ≤ clock (fine o.reference_host) + reading (neg_part o.offset_min_ticks) + slack

-- Half a tick's slew where the exchange spans an odd number of ticks, since the reference tick is
-- then half a tick before the middle; and none where it spans an even number.
abbrev pub odd_slack : ℕ → ℕ → ℕ
odd_slack slew span = 500_000_000 * (slew * (span % 2))

pub ℕ-split : (a b : ℕ) → (a ≤ b) ⊎ (b ≤ a)
ℕ-split a b = omega arith

pub mul_mono : (k a b : ℕ) → a ≤ b → k * a ≤ k * b
mul_mono k a b h = grind arith

-- With a slew of at most one tick a tick, a clock never loses more than the span itself.
pub gain :
    (slew x y : ℕ)
    → x ≤ y
    → slew ≤ 1_000_000_000
    → slew * y + 1_000_000_000 * x ≤ slew * x + 1_000_000_000 * y
gain slew x y h mild =
    omega (arith, mul_mono (y - x) slew 1_000_000_000 mild, ap (λ (t : ℕ). slew * t) span)
  where
    span : x + (y - x) ≡ y
    span = omega arith

module _ (slew : ℕ) (clock : ℕ → ℕ) (s : Slews slew clock) (mild : slew ≤ 1_000_000_000) where
  module _ (t₀ t₃ r a : ℕ) (order : t₀ ≤ t₃) (middle : r ≡ t₀ + (t₃ - t₀) / 2)
      (allowed : slew * (t₃ - t₀) ≤ 2_000_000_000 * a) where
    halves : slew * (t₃ - t₀) ≡ 2 * (slew * ((t₃ - t₀) / 2)) + slew * ((t₃ - t₀) % 2)
    halves = omega (arith, ap (λ (t : ℕ). slew * t) parts)
      where
        parts : t₃ - t₀ ≡ 2 * ((t₃ - t₀) / 2) + (t₃ - t₀) % 2
        parts = omega arith

    -- The reference tick is half the span behind the send, and the rest of it before the receipt.
    from_send : slew * fine r ≡ slew * fine t₀ + 1_000_000_000 * (slew * ((t₃ - t₀) / 2))
    from_send = omega (arith, ap (λ (t : ℕ). slew * t) middle)

    to_receipt :
        slew * fine t₃
        ≡ slew * fine r + 1_000_000_000 * (slew * ((t₃ - t₀) / 2) + slew * ((t₃ - t₀) % 2))
    to_receipt = omega (arith, ap (λ (t : ℕ). slew * t) ends)
      where
        ends : fine t₃ ≡ fine r + 1_000_000_000 * ((t₃ - t₀) / 2 + (t₃ - t₀) % 2)
        ends = omega arith

    not_above_at :
        (h c : ℕ)
        → fine t₀ ≤ h
        → clock h ≡ reading c
        → clock (fine r) + reading t₀ ≤ reading (r + c + a)
    not_above_at h c after stamped = elim (ℕ-split h (fine r)) [
      | inl before ↦ omega (
        arith,
        later_at_most s h (fine r) before,
        mul_mono slew (fine t₀) h after,
        from_send,
        halves,
      )
      | inr behind ↦
          omega (arith, later_at_least s (fine r) h behind, gain slew (fine r) h behind mild)
    ]

    not_below_at :
        (h c : ℕ)
        → h ≤ fine t₃
        → clock h ≡ reading c
        → reading (r + c) ≤ clock (fine r) + reading (t₃ + a) + odd_slack slew (t₃ - t₀)
    not_below_at h c early stamped = elim (ℕ-split h (fine r)) [
      | inl before ↦
          omega (arith, later_at_least s h (fine r) before, gain slew h (fine r) before mild)
      | inr behind ↦ omega (
        arith,
        later_at_most s (fine r) h behind,
        mul_mono slew h (fine t₃) early,
        to_receipt,
        halves,
      )
    ]

  -- Whenever the exchange was physically possible and the clock's slew is within a bound of at
  -- most the clock's own rate, a
  -- bounded observation covers the true offset at its reference tick: exactly for an even host
  -- span, and up to half a tick's slew on the low side for an odd one.
  pub observe_bounded-Covers :
      (sample : ClockSample) (o : OffsetObservation)
      → Exchanged clock sample
      → observe_bounded sample (pos slew) ≡ ok o
      → Covers clock (odd_slack slew o.round_trip_ticks) o
  observe_bounded-Covers sample o x accepted =
      let seen = observe_bounded_ok sample slew accepted in
      record {
        not_above = omega (
          arith,
          seen.highest,
          seen.reference,
          not_above_at sample.host_send sample.host_receive o.reference_host seen.allowance
              seen.in_order seen.reference seen.allowance_covers x.received_at
              sample.controller_receive x.after_send x.received,
        );
        not_below = rw seen.measured (
            omega (
              arith,
              seen.lowest,
              not_below_at sample.host_send sample.host_receive o.reference_host seen.allowance
                  seen.in_order seen.reference seen.allowance_covers x.answered_at
                  sample.controller_send x.before_receive x.answered,
            ));
      }
