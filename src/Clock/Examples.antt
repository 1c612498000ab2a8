-- ===== src/Clock/Examples.antt =====
-- The clock estimator at concrete exchanges, with a clock that gains five parts per billion.
use dryer.Base.{ℕ, ◌+◌, ◌-◌, ◌*◌, ◌≤◌, ◌<◌, ◌≡◌, refl, none, some, ok, err, ◌⊎◌, arith}
use dryer.Base.Int.{pos, negsuc, ◌+ℤ◌, ◌-ℤ◌, ◌*ℤ◌, quotient, remainder, checked_div, checked_rem}
use dryer.Clock.{
  ClockSync, ClockEstimate, ClockSample, OffsetObservation, DriftEstimate, ControllerWindow,
  ClockSyncError, controller_regressed,
}
use dryer.Clock.Arith.{
  add, sub, mul, neg, abs, div_floor, div_ceil, div_round_nearest_ties_away, to_u64,
}
use dryer.Clock.Accepts.{observe_bounded_accepts}
use dryer.Clock.Covers.{Exchanged, Covers, odd_slack, observe_bounded-Covers}
use dryer.Clock.Drift.{estimate_drift-encloses}
use dryer.Clock.Push.{Taken, push-cases}
use dryer.Clock.Sync.{
  new, push, evaluate, check_order, next_estimate, estimate_drift, observe_bounded, project,
  controller_window,
}
use dryer.Clock.TrueClock.{fine, reading, Slews}
use dryer.Clock.Window.{started, pushed, controller_window-contains}

abbrev clock : ℕ → ℕ
clock x = 1_000_000_005 * x

clock-Slews : Slews 10 clock
clock-Slews = record { at_most = λ x d. omega arith; at_least = λ x d. omega arith }

abbrev sample : ℕ → ℕ → ClockSample
sample tick stamp = record {
  host_send = tick - 5;
  controller_receive = stamp;
  controller_send = stamp;
  host_receive = tick + 5;
}

abbrev first : ClockSample
first = sample 200_000_000 200_000_001

abbrev second : ClockSample
second = sample 400_000_000 400_000_002

first-Exchanged : Exchanged clock first
first-Exchanged = record {
  received_at = fine 200_000_000;
  answered_at = fine 200_000_000;
  after_send = omega arith;
  in_order = omega arith;
  before_receive = omega arith;
  received = omega arith;
  answered = omega arith;
}

second-Exchanged : Exchanged clock second
second-Exchanged = record {
  received_at = fine 400_000_000;
  answered_at = fine 400_000_000;
  after_send = omega arith;
  in_order = omega arith;
  before_receive = omega arith;
  received = omega arith;
  answered = omega arith;
}

abbrev first_observation : OffsetObservation
first_observation = record {
  reference_host = 200_000_000;
  offset_ticks = pos 1;
  offset_min_ticks = negsuc 4;
  offset_max_ticks = pos 7;
  round_trip_ticks = 10;
}

abbrev second_observation : OffsetObservation
second_observation = record {
  reference_host = 400_000_000;
  offset_ticks = pos 2;
  offset_min_ticks = negsuc 3;
  offset_max_ticks = pos 8;
  round_trip_ticks = 10;
}

first_observed : observe_bounded first (pos 10) ≡ ok first_observation
unfolding observe_bounded add sub mul div_ceil checked_div checked_rem quotient remainder ◌+ℤ◌ ◌-ℤ◌
    ◌*ℤ◌
first_observed = refl

second_observed : observe_bounded second (pos 10) ≡ ok second_observation
unfolding observe_bounded add sub mul div_ceil checked_div checked_rem quotient remainder ◌+ℤ◌ ◌-ℤ◌
    ◌*ℤ◌
second_observed = refl

observe_bounded-Covers_example : Covers clock (odd_slack 10 10) first_observation
observe_bounded-Covers_example =
    observe_bounded-Covers 10 clock clock-Slews (omega arith) first first_observation
      first-Exchanged first_observed

second-Covers : Covers clock (odd_slack 10 10) second_observation
second-Covers =
    observe_bounded-Covers 10 clock clock-Slews (omega arith) second second_observation
      second-Exchanged second_observed

abbrev drift : DriftEstimate
drift = record { ppb = pos 5; min_ppb = negsuc 54; max_ppb = pos 65; baseline_ticks = 200_000_000 }

drift_estimated : estimate_drift first_observation second_observation ≡ ok drift
unfolding estimate_drift add sub mul abs div_ceil div_floor div_round_nearest_ties_away checked_div
    checked_rem quotient remainder ◌+ℤ◌ ◌-ℤ◌ ◌*ℤ◌
drift_estimated = refl

estimate_drift-encloses_example :
    (200_000_000 + 200_000_000 ≡ 400_000_000)
    × (0 < 200_000_000)
    × (clock (fine 200_000_000) + reading 200_000_000 + 1_000_000_000 * (200_000_000 * 0)
        ≤ clock (fine 400_000_000) + 1_000_000_000 * (200_000_000 * 55) + odd_slack 10 10)
    × (clock (fine 400_000_000) + 1_000_000_000 * (200_000_000 * 0)
        ≤ clock (fine 200_000_000)
          + reading 200_000_000
          + 1_000_000_000 * (200_000_000 * 65)
          + odd_slack 10 10)
estimate_drift-encloses_example =
    estimate_drift-encloses clock (odd_slack 10 10) (odd_slack 10 10) first_observation
      second_observation drift observe_bounded-Covers_example second-Covers drift_estimated

abbrev unsynced : ClockSync
unsynced = record {
  max_slew_ppb = pos 10;
  session_start = none;
  previous = none;
  estimate = none;
  last_raw = none;
}

unsynced-new : new (pos 10) ≡ ok unsynced
unfolding new
unsynced-new = refl

abbrev synced : ClockSync
synced = (push (push unsynced first).1 second).1

abbrev window : ControllerWindow
window = record { earliest = 599_999_985; estimate = 600_000_003; latest = 600_000_021 }

synced-window : controller_window synced 600_000_000 ≡ ok window
unfolding controller_window project push evaluate check_order next_estimate estimate_drift
    observe_bounded add sub mul neg abs div_ceil div_floor div_round_nearest_ties_away to_u64
    checked_div checked_rem quotient remainder ◌+ℤ◌ ◌-ℤ◌ ◌*ℤ◌
synced-window = refl

controller_window-contains_example :
    (e : ClockEstimate) × (synced.estimate ≡ some e)
    × (reading 599_999_985 ≤ clock (fine 600_000_000) + odd_slack 10 e.anchor.round_trip_ticks)
    × (clock (fine 600_000_000) ≤ reading 600_000_021)
controller_window-contains_example =
    controller_window-contains clock 10 clock-Slews (omega arith) {sync = synced} 600_000_000 window
      (pushed (pushed (started unsynced-new) first first-Exchanged) second second-Exchanged)
      synced-window

push-cases_example :
    ((e : ClockSyncError) × (push unsynced first ≡ (err e, unsynced)))
    ⊎ Taken unsynced first (push unsynced first)
push-cases_example = push-cases unsynced first

abbrev backwards : ClockSample
backwards = record {
  host_send = 100;
  controller_receive = 20;
  controller_send = 10;
  host_receive = 110;
}

backwards_refused : push unsynced backwards ≡ (err controller_regressed, unsynced)
unfolding push evaluate observe_bounded
backwards_refused = refl

observe_bounded_accepts_example : (o : OffsetObservation) × (observe_bounded second (pos 10) ≡ ok o)
observe_bounded_accepts_example =
    observe_bounded_accepts 10 clock clock-Slews (omega arith) second second-Exchanged (omega arith)
      (omega arith)
