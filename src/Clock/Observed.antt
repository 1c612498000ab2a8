-- ===== src/Clock/Observed.antt =====
-- What an accepted observation of crates/clock-sync/src/lib.rs is made of: the inversion of
-- `observe_bounded`.
use dryer.Base.{
  ℕ, ◌+◌, ◌-◌, ◌*◌, ◌/◌, ◌≤◌, ◌<◌, ◌^◌, ◌≡◌, refl, Bool, true, false, ok, ok_or, ltb, ltb_false→le,
  arith,
}
use dryer.Base.Int.{ℤ, pos, pos_part, neg_part, ◌*ℤ◌, ◌≤ℤ◌, quotient, ltb_ℤ, ltb_ℤ_ge, one_sided}
use dryer.Base.Outcome.{bind_ok, then_ok, ok-injective, refuse_if}
use dryer.Base.Words.{checked_sub_u64, checked_add_u64}
use dryer.Clock.{
  ClockSample, OffsetObservation, ClockSyncError, host_regressed, controller_regressed,
  controller_processing_exceeds_round_trip,
}
use dryer.Clock.Arith.{or_overflow, add, sub, mul, div_ceil}
use dryer.Clock.Division.{add_parts, sub_parts, mul_ok, div_ceil_bounds}
use dryer.Clock.Sync.{observe_bounded}

pub checked_sub_ok :
    (a b : ℕ) (e : ClockSyncError) {c : ℕ}
    → ok_or (checked_sub_u64 a b) e ≡ ok c
    → (b ≤ a) × (c ≡ a - b)
checked_sub_ok a b e h = ground arith

pub checked_add_ok :
    (a b : ℕ) {c : ℕ} → or_overflow (checked_add_u64 a b) ≡ ok c → (c ≡ a + b) × (c < 2 ^ 64)
checked_add_ok a b h = ground arith

pub refuse_ok : (test : Bool) (e : ClockSyncError) → refuse_if test e ≡ ok tt → test ≡ false
refuse_ok true e h = cc
refuse_ok false e h = refl

-- An accepted observation for a slew bound that is a number.
pub record Observed (sample : ClockSample) (slew : ℕ) (o : OffsetObservation) : Type 0 where
  pub allowance : ℕ
  pub in_order : sample.host_send ≤ sample.host_receive
  pub processed : sample.controller_receive ≤ sample.controller_send
  pub allowance_covers : slew * (sample.host_receive - sample.host_send) ≤ 2_000_000_000 * allowance
  pub reference : o.reference_host ≡ sample.host_send + (sample.host_receive - sample.host_send) / 2
  pub lowest :
      pos_part o.offset_min_ticks + sample.host_receive + allowance
      ≡ neg_part o.offset_min_ticks + sample.controller_send
  pub highest :
      pos_part o.offset_max_ticks + sample.host_send
      ≡ neg_part o.offset_max_ticks + sample.controller_receive + allowance
  pub ordered : o.offset_min_ticks ≤ℤ o.offset_max_ticks
  pub measured : o.round_trip_ticks ≡ sample.host_receive - sample.host_send

nonneg_allowance :
    (e slew : ℕ) {slewed a : ℤ}
    → slewed ≡ pos e *ℤ pos slew
    → div_ceil slewed (pos 2_000_000_000) ≡ ok a
    → (slew * e ≤ 2_000_000_000 * pos_part a) × (neg_part a ≡ 0)
unfolding ◌*ℤ◌
nonneg_allowance e slew {slewed} {a} product division =
    omega (arith, parts, div_ceil_bounds slewed 2_000_000_000 (omega arith) division, one_sided a)
  where
    parts : (pos_part slewed ≡ slew * e) × (neg_part slewed ≡ 0)
    parts = rw product (ground arith)

-- The intermediate values of `observe_bounded`, each with the step that it came from.
assemble :
    (sample : ClockSample) (slew : ℕ) {o : OffsetObservation} (e : ℕ)
    (slewed a l h low high width middle : ℤ) (r : ℕ)
    → ok_or (checked_sub_u64 sample.host_receive sample.host_send) host_regressed ≡ ok e
    → refuse_if (ltb sample.controller_send sample.controller_receive) controller_regressed ≡ ok tt
    → mul (pos e) (pos slew) ≡ ok slewed
    → div_ceil slewed (pos 2_000_000_000) ≡ ok a
    → sub (pos sample.controller_send) (pos sample.host_receive) ≡ ok l
    → sub (pos sample.controller_receive) (pos sample.host_send) ≡ ok h
    → sub l a ≡ ok low
    → add h a ≡ ok high
    → sub high low ≡ ok width
    → refuse_if (ltb_ℤ width (pos 0)) controller_processing_exceeds_round_trip ≡ ok tt
    → or_overflow (checked_add_u64 sample.host_send (e / 2)) ≡ ok r
    → record {
      reference_host = r;
      offset_ticks = middle;
      offset_min_ticks = low;
      offset_max_ticks = high;
      round_trip_ticks = e;
    }
      ≡ o
    → Observed sample slew o
assemble sample slew e slewed a l h low high width middle r e_is processed slewed_is a_is l_is h_is
      low_is high_is width_is wide r_is o_is =
    let (in_order, e_eq) = checked_sub_ok sample.host_receive sample.host_send _ e_is in
    let (covers, no_neg) = nonneg_allowance e slew (mul_ok (pos e) (pos slew) slewed_is) a_is in
    let (r_eq, _) = checked_add_ok sample.host_send (e / 2) r_is in
    let late = refuse_ok _ _ processed in
    rw (← o_is) (record {
      allowance = pos_part a;
      in_order = in_order;
      processed = ltb_false→le sample.controller_send sample.controller_receive late;
      allowance_covers = rw e_eq at covers;
      reference = rw e_eq at r_eq;
      lowest = omega (
        arith,
        no_neg,
        sub_parts l a low_is,
        sub_parts (pos sample.controller_send) (pos sample.host_receive) l_is,
      );
      highest = omega (
        arith,
        no_neg,
        add_parts h a high_is,
        sub_parts (pos sample.controller_receive) (pos sample.host_send) h_is,
      );
      ordered =
          omega (arith, sub_parts high low width_is, ltb_ℤ_ge width (pos 0) (refuse_ok _ _ wide));
      measured = e_eq;
    })

pub observe_bounded_ok :
    (sample : ClockSample) (slew : ℕ) {o : OffsetObservation}
    → observe_bounded sample (pos slew) ≡ ok o
    → Observed sample slew o
unfolding observe_bounded
observe_bounded_ok sample slew {o} chain =
    let (e, e_is, c₁) = bind_ok (ok_or (checked_sub_u64 t₃ t₀) host_regressed) _ chain in
    let (processed, c₂) = then_ok (refuse_if (ltb r₂ r₁) controller_regressed) _ c₁ in
    let (slewed, slewed_is, c₃) = bind_ok (mul (pos e) (pos slew)) _ c₂ in
    let (a, a_is, c₄) = bind_ok (div_ceil slewed (pos 2_000_000_000)) _ c₃ in
    let (l, l_is, c₅) = bind_ok (sub (pos r₂) (pos t₃)) _ c₄ in
    let (h, h_is, c₆) = bind_ok (sub (pos r₁) (pos t₀)) _ c₅ in
    let (low, low_is, c₇) = bind_ok (sub l a) _ c₆ in
    let (high, high_is, c₈) = bind_ok (add h a) _ c₇ in
    let (width, width_is, c₉) = bind_ok (sub high low) _ c₈ in
    let (wide, c₁₀) =
      then_ok (refuse_if (ltb_ℤ width (pos 0)) controller_processing_exceeds_round_trip) _ c₉ in
    let (middle, middle_is, c₁₁) = bind_ok (add low (quotient width (pos 2))) _ c₁₀ in
    let (r, r_is, c₁₂) = bind_ok (or_overflow (checked_add_u64 t₀ (e / 2))) _ c₁₁ in
    assemble sample slew e slewed a l h low high width middle r e_is processed slewed_is a_is l_is
      h_is low_is high_is width_is wide r_is (ok-injective c₁₂)
  where
    open sample use {
      host_send as t₀, controller_receive as r₁, controller_send as r₂, host_receive as t₃,
    }
