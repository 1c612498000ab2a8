-- ===== src/Clock/Accepts.antt =====
-- crates/clock-sync/src/lib.rs: the exchanges that `observe_bounded` accepts.
use dryer.Base.{
  ℕ, ◌+◌, ◌-◌, ◌*◌, ◌/◌, ◌%◌, ◌≤◌, ◌<◌, ◌^◌, ◌≡◌, ◌⊎◌, ap, refl, false, inl, inr, ok, ok_or, ltb,
  ltb_of_ge, Bool-cases, arith,
}
use dryer.Base.Int.{
  ℤ, pos, negsuc, pos_part, neg_part, ◌+ℤ◌, ◌-ℤ◌, ◌*ℤ◌, quotient, remainder, ltb_ℤ, +ℤ_parts,
  checked, checked_div, checked_rem, -ℤ_parts, one_sided,
}
use dryer.Base.Words.{checked_sub_u64, checked_add_u64}
use dryer.Clock.{ClockSample, OffsetObservation, host_regressed}
use dryer.Clock.Arith.{or_overflow, add, sub, mul, div_ceil}
use dryer.Clock.Covers.{Exchanged, gain, mul_mono}
use dryer.Clock.Sync.{observe_bounded}
use dryer.Clock.TrueClock.{fine, Slews, later_at_most, later_at_least}

fits : (a : ℤ) → pos_part a < 2 ^ 127 → neg_part a < 2 ^ 127 → or_overflow (checked a) ≡ ok a
fits (pos n) p n' = ground arith
fits (negsuc n) p n' = ground arith

-- An operand of at most 100 bits.
abbrev Small : ℤ → Type 0
Small a = (pos_part a < 2 ^ 100) × (neg_part a < 2 ^ 100)

add_fits :
    (a b : ℤ)
    → Small a
    → Small b
    → (c : ℤ) × (add a b ≡ ok c)
      × (pos_part c + neg_part a + neg_part b ≡ neg_part c + pos_part a + pos_part b)
      × ((pos_part c ≡ 0) ⊎ (neg_part c ≡ 0))
unfolding add
add_fits a b sa sb = (
  a +ℤ b,
  fits (a +ℤ b) (omega (arith, +ℤ_parts a b, one_sided (a +ℤ b)))
      (omega (arith, +ℤ_parts a b, one_sided (a +ℤ b))),
  +ℤ_parts a b,
  one_sided (a +ℤ b),
)

sub_fits :
    (a b : ℤ)
    → Small a
    → Small b
    → (c : ℤ) × (sub a b ≡ ok c)
      × (pos_part c + neg_part a + pos_part b ≡ neg_part c + pos_part a + neg_part b)
      × ((pos_part c ≡ 0) ⊎ (neg_part c ≡ 0))
unfolding sub
sub_fits a b sa sb = (
  a -ℤ b,
  fits (a -ℤ b) (omega (arith, -ℤ_parts a b, one_sided (a -ℤ b)))
      (omega (arith, -ℤ_parts a b, one_sided (a -ℤ b))),
  -ℤ_parts a b,
  one_sided (a -ℤ b),
)

mul_fits : (e s : ℕ) → s * e < 2 ^ 100 → mul (pos e) (pos s) ≡ ok (pos (s * e))
unfolding mul ◌*ℤ◌
mul_fits e s h = ground arith

allowance_fits :
    (n : ℕ)
    → n < 2 ^ 100
    → (a : ℕ) × (div_ceil (pos n) (pos 2_000_000_000) ≡ ok (pos a))
      × (n ≤ 2_000_000_000 * a)
      × (2_000_000_000 * a < n + 2_000_000_000)
unfolding div_ceil checked_div checked_rem quotient remainder add ◌+ℤ◌
allowance_fits n h = elim (Bool-cases (ltb 0 (n % 2_000_000_000))) [
  | inl up ↦ (n / 2_000_000_000 + 1, ground arith, omega arith, ground arith)
  | inr exact ↦ (n / 2_000_000_000, ground arith, ground arith, omega arith)
]

half_Small : (w : ℤ) → Small w → Small (quotient w (pos 2))
unfolding quotient
half_Small (pos n) s = ground arith
half_Small (negsuc n) s = ground arith

allowance_small :
    (e slew : ℕ)
    → e < 2 ^ 63
    → slew ≤ 1_000_000_000
    → (a : ℕ) × (mul (pos e) (pos slew) ≡ ok (pos (slew * e)))
      × (div_ceil (pos (slew * e)) (pos 2_000_000_000) ≡ ok (pos a))
      × (slew * e ≤ 2_000_000_000 * a)
      × (a < 2 ^ 64)
allowance_small e slew h mild =
    let bound : slew * e ≤ 1_000_000_000 * e = omega (arith, mul_mono e slew 1_000_000_000 mild) in
    let (a, a_is, low, high) = allowance_fits (slew * e) (omega (arith, bound)) in
    (a, mul_fits e slew (omega (arith, bound)), a_is, low, omega (arith, bound, high))

low_fits :
    (r t a : ℕ)
    → r < 2 ^ 64
    → t < 2 ^ 63
    → a < 2 ^ 64
    → (l : ℤ) × (low : ℤ) × (sub (pos r) (pos t) ≡ ok l)
      × (sub l (pos a) ≡ ok low)
      × (pos_part low + t + a ≡ neg_part low + r)
      × ((pos_part low ≡ 0) ⊎ (neg_part low ≡ 0))
low_fits r t a hr ht ha =
    let (l, l_is, l_parts, l_side) = sub_fits (pos r) (pos t) (omega arith) (omega arith) in
    let (low, low_is, low_parts, low_side) =
      sub_fits l (pos a) (omega (arith, l_parts, l_side)) (omega arith) in
    (l, low, l_is, low_is, omega (arith, l_parts, low_parts), low_side)

high_fits :
    (r t a : ℕ)
    → r < 2 ^ 64
    → t < 2 ^ 63
    → a < 2 ^ 64
    → (h : ℤ) × (high : ℤ) × (sub (pos r) (pos t) ≡ ok h)
      × (add h (pos a) ≡ ok high)
      × (pos_part high + t ≡ neg_part high + r + a)
      × ((pos_part high ≡ 0) ⊎ (neg_part high ≡ 0))
high_fits r t a hr ht ha =
    let (h, h_is, h_parts, h_side) = sub_fits (pos r) (pos t) (omega arith) (omega arith) in
    let (high, high_is, high_parts, high_side) =
      add_fits h (pos a) (omega (arith, h_parts, h_side)) (omega arith) in
    (h, high, h_is, high_is, omega (arith, h_parts, high_parts), high_side)

not_below_zero : (w : ℤ) → neg_part w ≤ pos_part w → ltb_ℤ w (pos 0) ≡ false
not_below_zero w h = ground arith

width_fits :
    (t₀ t₃ r₁ r₂ a : ℕ)
    → t₀ ≤ t₃
    → r₁ ≤ r₂
    → t₃ < 2 ^ 63
    → r₂ < 2 ^ 64
    → a < 2 ^ 64
    → r₂ - r₁ ≤ (t₃ - t₀) + 2 * a
    → (low high : ℤ) → pos_part low + t₃ + a ≡ neg_part low + r₂
    → (pos_part low ≡ 0) ⊎ (neg_part low ≡ 0)
    → pos_part high + t₀ ≡ neg_part high + r₁ + a
    → (pos_part high ≡ 0) ⊎ (neg_part high ≡ 0)
    → (width : ℤ) × (middle : ℤ) × (sub high low ≡ ok width)
      × (ltb_ℤ width (pos 0) ≡ false)
      × (add low (quotient width (pos 2)) ≡ ok middle)
width_fits t₀ t₃ r₁ r₂ a h₁ h₂ h₃ h₄ h₅ h₆ low high lp ls hp hs =
    let low_Small : Small low = omega (arith, lp, ls) in
    let high_Small : Small high = omega (arith, hp, hs) in
    let (width, width_is, width_parts, width_side) = sub_fits high low high_Small low_Small in
    let width_Small : Small width = omega (arith, lp, ls, hp, hs, width_parts, width_side) in
    let (middle, middle_is, _, _) =
      add_fits low (quotient width (pos 2)) low_Small (half_Small width width_Small) in
    (width, middle, width_is, not_below_zero width (omega (arith, lp, hp, width_parts)), middle_is)

elapsed_is : (t₀ t₃ : ℕ) → t₀ ≤ t₃ → ok_or (checked_sub_u64 t₃ t₀) host_regressed ≡ ok (t₃ - t₀)
elapsed_is t₀ t₃ h = ground arith

reference_is :
    (t₀ t₃ : ℕ)
    → t₀ ≤ t₃
    → t₃ < 2 ^ 63
    → or_overflow (checked_add_u64 t₀ ((t₃ - t₀) / 2)) ≡ ok (t₀ + (t₃ - t₀) / 2)
reference_is t₀ t₃ h b = ground arith

-- The steps of `observe_bounded`, each with its value.
compose :
    (sample : ClockSample) (slew e : ℕ) (slewed a l h low high width middle : ℤ) (r : ℕ)
    → ok_or (checked_sub_u64 sample.host_receive sample.host_send) host_regressed ≡ ok e
    → ltb sample.controller_send sample.controller_receive ≡ false
    → mul (pos e) (pos slew) ≡ ok slewed
    → div_ceil slewed (pos 2_000_000_000) ≡ ok a
    → sub (pos sample.controller_send) (pos sample.host_receive) ≡ ok l
    → sub (pos sample.controller_receive) (pos sample.host_send) ≡ ok h
    → sub l a ≡ ok low
    → add h a ≡ ok high
    → sub high low ≡ ok width
    → ltb_ℤ width (pos 0) ≡ false
    → add low (quotient width (pos 2)) ≡ ok middle
    → or_overflow (checked_add_u64 sample.host_send (e / 2)) ≡ ok r
    → (o : OffsetObservation) × (observe_bounded sample (pos slew) ≡ ok o)
unfolding observe_bounded
compose sample slew e slewed a l h low high width middle r e_is processed slewed_is a_is l_is h_is
      low_is high_is width_is wide middle_is r_is =
    (
      record {
        reference_host = r;
        offset_ticks = middle;
        offset_min_ticks = low;
        offset_max_ticks = high;
        round_trip_ticks = e;
      },
      rw
          (
            observe_bounded, e_is, processed, slewed_is, a_is, l_is, h_is, low_is, high_is,
            width_is, wide, middle_is, r_is,
          )
          refl,
    )

module _ (slew : ℕ) (clock : ℕ → ℕ) (s : Slews slew clock) (mild : slew ≤ 1_000_000_000)
    (sample : ClockSample) (x : Exchanged clock sample) where
  open sample use {
    host_send as t₀, controller_receive as r₁, controller_send as r₂, host_receive as t₃,
  }

  in_order : t₀ ≤ t₃
  in_order = omega (arith, x.after_send, x.in_order, x.before_receive)

  processed : r₁ ≤ r₂
  processed = omega (
    arith,
    x.received,
    x.answered,
    later_at_least s x.received_at x.answered_at x.in_order,
    gain slew x.received_at x.answered_at x.in_order mild,
  )

  span_slew : slew * fine t₃ ≡ slew * fine t₀ + 1_000_000_000 * (slew * (t₃ - t₀))
  span_slew = omega (arith, ap (λ (t : ℕ). slew * t) ends)
    where
      ends : fine t₃ ≡ fine t₀ + 1_000_000_000 * (t₃ - t₀)
      ends = omega (arith, in_order)

  -- The controller cannot have taken longer than the exchange, but for its clock's gain.
  possible : 1_000_000_000 * (r₂ - r₁) ≤ 1_000_000_000 * (t₃ - t₀) + slew * (t₃ - t₀)
  possible = omega (
    arith,
    x.received,
    x.answered,
    processed,
    in_order,
    span_slew,
    x.after_send,
    x.before_receive,
    later_at_most s x.received_at x.answered_at x.in_order,
    mul_mono slew (fine t₀) x.received_at x.after_send,
    mul_mono slew x.answered_at (fine t₃) x.before_receive,
  )

  -- An exchange that was physically possible, with a clock whose slew is within the bound and at
  -- most the clock's own rate, is never refused while host ticks stay below 2 ^ 63 and controller
  -- ticks below 2 ^ 64.
  pub observe_bounded_accepts :
      t₃ < 2 ^ 63
      → r₂ < 2 ^ 64
      → (o : OffsetObservation) × (observe_bounded sample (pos slew) ≡ ok o)
  observe_bounded_accepts host controller =
      let e = t₃ - t₀ in
      let (a, slewed_is, a_is, a_low, a_small) =
        allowance_small e slew (omega (arith, host)) mild in
      let (l, low, l_is, low_is, low_parts, low_side) = low_fits r₂ t₃ a controller host a_small in
      let (h, high, h_is, high_is, high_parts, high_side) =
        high_fits r₁ t₀ a (omega (arith, processed, controller)) (omega (arith, in_order, host))
          a_small in
      let (width, middle, width_is, wide, middle_is) =
        width_fits t₀ t₃ r₁ r₂ a in_order processed host controller a_small
          (omega (arith, possible, a_low)) low high low_parts low_side high_parts high_side in
      compose sample slew e (pos (slew * e)) (pos a) l h low high width middle (t₀ + e / 2)
        (elapsed_is t₀ t₃ in_order) (ltb_of_ge r₂ r₁ processed) slewed_is a_is l_is h_is low_is
        high_is width_is wide middle_is (reference_is t₀ t₃ in_order host)
