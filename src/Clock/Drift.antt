-- ===== src/Clock/Drift.antt =====
-- crates/clock-sync/src/lib.rs: what a drift estimate bounds.
use dryer.Base.{ℕ, ◌+◌, ◌*◌, ◌≤◌, ◌<◌, ◌≡◌, ok, ok_or, arith}
use dryer.Base.Int.{ℤ, pos, pos_part, neg_part, ◌*ℤ◌}
use dryer.Base.Outcome.{bind_ok, ok-injective}
use dryer.Base.Words.{checked_sub_u64}
use dryer.Clock.{OffsetObservation, DriftEstimate, insufficient_separation}
use dryer.Clock.Arith.{sub, mul, div_floor, div_ceil, div_round_nearest_ties_away}
use dryer.Clock.Covers.{Covers}
use dryer.Clock.Division.{sub_parts, mul_ok, div_floor_bounds, div_ceil_bounds}
use dryer.Clock.Sync.{estimate_drift, nonzero}
use dryer.Clock.TrueClock.{fine, reading}

baseline_ok :
    (a b : ℕ) {n : ℕ}
    → ok_or (nonzero (checked_sub_u64 a b)) insufficient_separation ≡ ok n
    → (b + n ≡ a) × (0 < n)
baseline_ok a b h = ground arith

-- The bounds of a drift estimate, as rates over its baseline between two observations.
record Bounded (previous current : OffsetObservation) (d : DriftEstimate) : Type 0 where
  baseline : previous.reference_host + d.baseline_ticks ≡ current.reference_host
  positive : 0 < d.baseline_ticks
  least :
      d.baseline_ticks * pos_part d.min_ppb
        + 1_000_000_000 * (neg_part current.offset_min_ticks + pos_part previous.offset_max_ticks)
      ≤ d.baseline_ticks * neg_part d.min_ppb
        + 1_000_000_000 * (pos_part current.offset_min_ticks + neg_part previous.offset_max_ticks)
  most :
      d.baseline_ticks * neg_part d.max_ppb
        + 1_000_000_000 * (pos_part current.offset_max_ticks + neg_part previous.offset_min_ticks)
      ≤ d.baseline_ticks * pos_part d.max_ppb
        + 1_000_000_000 * (neg_part current.offset_max_ticks + pos_part previous.offset_min_ticks)

times_billion :
    (d : ℤ) {p : ℤ}
    → mul d (pos 1_000_000_000) ≡ ok p
    → (pos_part p + 1_000_000_000 * neg_part d ≡ neg_part p + 1_000_000_000 * pos_part d)
unfolding ◌*ℤ◌
times_billion d h = rw (mul_ok d (pos 1_000_000_000) h) (parts d)
  where
    parts :
        (a : ℤ)
        → pos_part (a *ℤ pos 1_000_000_000) + 1_000_000_000 * neg_part a
          ≡ neg_part (a *ℤ pos 1_000_000_000) + 1_000_000_000 * pos_part a
    parts a = ground arith

assemble :
    (previous current : OffsetObservation) {d : DriftEstimate} (b : ℕ)
    (least_d most_d ppb least_p min_ppb most_p max_ppb : ℤ)
    → ok_or
        (nonzero (checked_sub_u64 current.reference_host previous.reference_host))
        insufficient_separation
      ≡ ok b
    → sub current.offset_min_ticks previous.offset_max_ticks ≡ ok least_d
    → sub current.offset_max_ticks previous.offset_min_ticks ≡ ok most_d
    → mul least_d (pos 1_000_000_000) ≡ ok least_p
    → div_floor least_p (pos b) ≡ ok min_ppb
    → mul most_d (pos 1_000_000_000) ≡ ok most_p
    → div_ceil most_p (pos b) ≡ ok max_ppb
    → record { ppb = ppb; min_ppb = min_ppb; max_ppb = max_ppb; baseline_ticks = b } ≡ d
    → Bounded previous current d
assemble previous current b least_d most_d ppb least_p min_ppb most_p max_ppb b_is least_d_is
      most_d_is least_p_is min_is most_p_is max_is d_is =
    let (base, positive) = baseline_ok current.reference_host previous.reference_host b_is in
    rw (← d_is) (record {
      baseline = base;
      positive = positive;
      least = omega (
        arith,
        sub_parts current.offset_min_ticks previous.offset_max_ticks least_d_is,
        times_billion least_d least_p_is,
        div_floor_bounds least_p b positive min_is,
      );
      most = omega (
        arith,
        sub_parts current.offset_max_ticks previous.offset_min_ticks most_d_is,
        times_billion most_d most_p_is,
        div_ceil_bounds most_p b positive max_is,
      );
    })

estimate_drift-Bounded :
    (previous current : OffsetObservation) {d : DriftEstimate}
    → estimate_drift previous current ≡ ok d
    → Bounded previous current d
unfolding estimate_drift
estimate_drift-Bounded previous current {d} chain =
    let (b, b_is, c₁) =
      bind_ok
        (ok_or (nonzero (checked_sub_u64 current.reference_host previous.reference_host))
          insufficient_separation)
        _ chain in
    let (point_d, _, c₂) = bind_ok (sub current.offset_ticks previous.offset_ticks) _ c₁ in
    let (least_d, least_d_is, c₃) =
      bind_ok (sub current.offset_min_ticks previous.offset_max_ticks) _ c₂ in
    let (most_d, most_d_is, c₄) =
      bind_ok (sub current.offset_max_ticks previous.offset_min_ticks) _ c₃ in
    let (point, _, c₅) = bind_ok (mul point_d (pos 1_000_000_000)) _ c₄ in
    let (ppb, _, c₆) = bind_ok (div_round_nearest_ties_away point (pos b)) _ c₅ in
    let (least_p, least_p_is, c₇) = bind_ok (mul least_d (pos 1_000_000_000)) _ c₆ in
    let (min_ppb, min_is, c₈) = bind_ok (div_floor least_p (pos b)) _ c₇ in
    let (most_p, most_p_is, c₉) = bind_ok (mul most_d (pos 1_000_000_000)) _ c₈ in
    let (max_ppb, max_is, d₁) = bind_ok (div_ceil most_p (pos b)) _ c₉ in
    assemble previous current b least_d most_d ppb least_p min_ppb most_p max_ppb b_is least_d_is
      most_d_is least_p_is min_is most_p_is max_is (ok-injective d₁)

-- Between two observations that cover a clock, up to a slack below each, the rates of a drift
-- estimate enclose the rate at which the clock really gained on the host over the baseline.
pub estimate_drift-encloses :
    (clock : ℕ → ℕ) (slack slack' : ℕ) (previous current : OffsetObservation) (d : DriftEstimate)
    → Covers clock slack previous
    → Covers clock slack' current
    → estimate_drift previous current ≡ ok d
    → let b = d.baseline_ticks in
      (previous.reference_host + b ≡ current.reference_host)
      × (0 < b)
      × (clock (fine previous.reference_host) + reading b + 1_000_000_000 * (b * pos_part d.min_ppb)
          ≤ clock (fine current.reference_host) + 1_000_000_000 * (b * neg_part d.min_ppb) + slack')
      × (clock (fine current.reference_host) + 1_000_000_000 * (b * neg_part d.max_ppb)
          ≤ clock (fine previous.reference_host)
            + reading b
            + 1_000_000_000 * (b * pos_part d.max_ppb)
            + slack)
estimate_drift-encloses clock slack slack' previous current d before now chain =
    let e = estimate_drift-Bounded previous current chain in
    (
      e.baseline,
      e.positive,
      omega (arith, e.baseline, e.least, before.not_above, now.not_below),
      omega (arith, e.baseline, e.most, before.not_below, now.not_above),
    )
