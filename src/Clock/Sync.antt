-- ===== src/Clock/Sync.antt =====
-- crates/clock-sync/src/lib.rs, `observe`, `observe_bounded`, `estimate_drift` and `ClockSync`.
use dryer.Base.{
  ℕ, ◌/◌, ◌==◌, Bool, true, false, ◌||◌, Option, none, some, ok, err, ok_or, ltb, leb,
  if◌then◌else◌,
}
use dryer.Base.Int.{ℤ, pos, quotient, ltb_ℤ, min_ℤ, max_ℤ}
use dryer.Base.Outcome.{◌>>=◌, ◌>>◌, refuse_if}
use dryer.Base.Words.{checked_sub_u64, checked_add_u64}
use dryer.Clock.{
  HostTick, ClockSample, OffsetObservation, DriftEstimate, ClockEstimate, ControllerWindow,
  invalid_slew_bound, host_regressed, controller_regressed,
  controller_processing_exceeds_round_trip, insufficient_separation, estimate_unavailable,
  host_tick_before_session, ClockSync, parts_per_billion, midpoint_slew_denominator,
}
use dryer.Clock.Arith.{
  Fallible, or_overflow, add, sub, mul, neg, div_floor, div_ceil, div_round_nearest_ties_away,
  to_u64,
}

unfoldable pub observe : ClockSample → Fallible OffsetObservation
observe sample = do
  host_elapsed ← ok_or (checked_sub_u64 sample.host_receive sample.host_send) host_regressed
  controller_processing ←
      ok_or (checked_sub_u64 sample.controller_send sample.controller_receive) controller_regressed
  round_trip_ticks ←
      ok_or (checked_sub_u64 host_elapsed controller_processing)
        controller_processing_exceeds_round_trip
  low ← sub (pos sample.controller_send) (pos sample.host_receive)
  high ← sub (pos sample.controller_receive) (pos sample.host_send)
  width ← sub high low
  midpoint ← add low (quotient width (pos 2))
  reference_host ← or_overflow (checked_add_u64 sample.host_send (host_elapsed / 2))
  ok (record {
    reference_host = reference_host;
    offset_ticks = midpoint;
    offset_min_ticks = low;
    offset_max_ticks = high;
    round_trip_ticks = round_trip_ticks;
  })

unfoldable pub observe_bounded : ClockSample → ℤ → Fallible OffsetObservation
observe_bounded sample max_slew_ppb = do
  host_elapsed ← ok_or (checked_sub_u64 sample.host_receive sample.host_send) host_regressed
  refuse_if (ltb sample.controller_send sample.controller_receive) controller_regressed
  slewed ← mul (pos host_elapsed) max_slew_ppb
  allowance ← div_ceil slewed (pos midpoint_slew_denominator)
  nominal_low ← sub (pos sample.controller_send) (pos sample.host_receive)
  nominal_high ← sub (pos sample.controller_receive) (pos sample.host_send)
  low ← sub nominal_low allowance
  high ← add nominal_high allowance
  width ← sub high low
  refuse_if (ltb_ℤ width (pos 0)) controller_processing_exceeds_round_trip
  midpoint ← add low (quotient width (pos 2))
  reference_host ← or_overflow (checked_add_u64 sample.host_send (host_elapsed / 2))
  ok (record {
    reference_host = reference_host;
    offset_ticks = midpoint;
    offset_min_ticks = low;
    offset_max_ticks = high;
    round_trip_ticks = host_elapsed;
  })

-- `checked_sub(..).filter(|baseline| *baseline != 0)`.
abbrev pub nonzero : Option ℕ → Option ℕ
nonzero none = none
nonzero (some n) = if n == 0 then none else some n

unfoldable pub estimate_drift : OffsetObservation → OffsetObservation → Fallible DriftEstimate
estimate_drift previous current = do
  baseline_ticks ←
      ok_or (nonzero (checked_sub_u64 current.reference_host previous.reference_host))
        insufficient_separation
  let denominator = pos baseline_ticks
  point_delta ← sub current.offset_ticks previous.offset_ticks
  minimum_delta ← sub current.offset_min_ticks previous.offset_max_ticks
  maximum_delta ← sub current.offset_max_ticks previous.offset_min_ticks
  point ← mul point_delta (pos parts_per_billion)
  ppb ← div_round_nearest_ties_away point denominator
  minimum ← mul minimum_delta (pos parts_per_billion)
  min_ppb ← div_floor minimum denominator
  maximum ← mul maximum_delta (pos parts_per_billion)
  max_ppb ← div_ceil maximum denominator
  ok (record { ppb = ppb; min_ppb = min_ppb; max_ppb = max_ppb; baseline_ticks = baseline_ticks })

unfoldable pub new : ℤ → Fallible ClockSync
new max_slew_ppb =
    if ltb_ℤ max_slew_ppb (pos 0)
    then err invalid_slew_bound
    else ok (record {
      max_slew_ppb = max_slew_ppb;
      session_start = none;
      previous = none;
      estimate = none;
      last_raw = none;
    })

-- The order of the raw timestamps against the last accepted sample.
unfoldable pub check_order : Option ClockSample → ClockSample → Fallible (Unit {0})
check_order none sample = ok tt
check_order (some last) sample = do
  refuse_if (ltb sample.host_send last.host_send || ltb sample.host_receive last.host_receive)
      host_regressed
  refuse_if
      (ltb sample.controller_receive last.controller_receive
        || ltb sample.controller_send last.controller_send)
      controller_regressed

unfoldable pub next_estimate :
    Option OffsetObservation → OffsetObservation → HostTick → Fallible (Option ClockEstimate)
next_estimate none observation sampled_at = ok none
next_estimate (some previous) observation sampled_at = do
  refuse_if (leb observation.reference_host previous.reference_host) insufficient_separation
  drift ← estimate_drift previous observation
  ok (some (record { anchor = observation; drift = drift; sampled_at = sampled_at }))

abbrev pub or_else : {A : Type 0} → Option A → Option A → Option A
or_else none b = b
or_else (some a) b = some a

-- The assignments of `push`, after every check and all arithmetic.
abbrev pub commit : ClockSync → ClockSample → OffsetObservation → Option ClockEstimate → ClockSync
commit sync sample observation next = record sync {
  session_start = or_else sync.session_start (some observation.reference_host);
  previous = some observation;
  last_raw = some sample;
  estimate = or_else next sync.estimate;
}

-- The checks and the arithmetic of `push`.
unfoldable pub evaluate :
    ClockSync → ClockSample → Fallible (OffsetObservation × Option ClockEstimate)
evaluate sync sample = do
  observation ← observe_bounded sample sync.max_slew_ppb
  check_order sync.last_raw sample
  next ← next_estimate sync.previous observation sample.host_receive
  ok (observation, next)

unfoldable pub push : ClockSync → ClockSample → Fallible (Option ClockEstimate) × ClockSync
push sync sample = elim (evaluate sync sample) [
  | err e ↦ (err e, sync)
  | ok (observation, next) ↦
      let sync' = commit sync sample observation next in (ok sync'.estimate, sync')
]

unfoldable pub project : ClockSync → HostTick → Fallible (ℤ × ℤ × ℤ)
project sync host = do
  estimate ← ok_or sync.estimate estimate_unavailable
  session_start ← ok_or sync.session_start estimate_unavailable
  refuse_if (ltb host session_start) host_tick_before_session
  elapsed ← sub (pos host) (pos estimate.anchor.reference_host)
  physical_min_ppb ← neg sync.max_slew_ppb
  let minimum_ppb = min_ℤ estimate.drift.min_ppb physical_min_ppb
  let maximum_ppb = max_ℤ estimate.drift.max_ppb sync.max_slew_ppb
  let low_ppb = if ltb_ℤ elapsed (pos 0) then maximum_ppb else minimum_ppb
  let high_ppb = if ltb_ℤ elapsed (pos 0) then minimum_ppb else maximum_ppb
  low_product ← mul elapsed low_ppb
  low_drift ← div_floor low_product (pos parts_per_billion)
  high_product ← mul elapsed high_ppb
  high_drift ← div_ceil high_product (pos parts_per_billion)
  offset_low ← add estimate.anchor.offset_min_ticks low_drift
  offset_high ← add estimate.anchor.offset_max_ticks high_drift
  controller_low ← add (pos host) offset_low
  controller_high ← add (pos host) offset_high
  width ← sub controller_high controller_low
  midpoint ← add controller_low (quotient width (pos 2))
  ok (controller_low, midpoint, controller_high)

unfoldable pub controller_window : ClockSync → HostTick → Fallible ControllerWindow
controller_window sync host = do
  (low, midpoint, high) ← project sync host
  earliest ← to_u64 low
  estimate ← to_u64 midpoint
  latest ← to_u64 high
  ok (record { earliest = earliest; estimate = estimate; latest = latest })

unfoldable pub uncertainty_at : ClockSync → HostTick → Fallible ℕ
uncertainty_at sync host = do
  (low, midpoint, high) ← project sync host
  earliest ← to_u64 low
  estimate ← to_u64 midpoint
  latest ← to_u64 high
  below ← sub midpoint low
  above ← sub high midpoint
  to_u64 (max_ℤ below above)

unfoldable pub resync_due : ClockSync → HostTick → ℕ → Bool
resync_due sync host_now interval_ticks = elim sync.estimate [
  | none ↦ true
  | some estimate ↦ elim (checked_sub_u64 host_now estimate.sampled_at) [
    | none ↦ false
    | some elapsed ↦ leb interval_ticks elapsed
  ]
]
