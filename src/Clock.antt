-- ===== src/Clock.antt =====
-- crates/clock-sync/src/lib.rs: the samples, observations, estimates and errors of the host and
-- controller clock estimator. Ticks are u64 values, and offsets and rates are i128 values.
pub mod Arith
pub mod Division
pub mod Sync
pub mod TrueClock
pub mod Observed
pub mod Covers
pub mod Projected
pub mod Window
pub mod Push
pub mod Drift
pub mod Accepts
mod Examples
use dryer.Base.{ℕ, Option}
use dryer.Base.Int.{ℤ}

abbrev pub HostTick : Type 0
HostTick = ℕ

abbrev pub ControllerTick : Type 0
ControllerTick = ℕ

abbrev pub parts_per_billion : ℕ
parts_per_billion = 1_000_000_000

abbrev pub midpoint_slew_denominator : ℕ
midpoint_slew_denominator = 2_000_000_000

pub record ClockSample : Type 0 where
  pub host_send : HostTick
  pub controller_receive : ControllerTick
  pub controller_send : ControllerTick
  pub host_receive : HostTick

pub record OffsetObservation : Type 0 where
  pub reference_host : HostTick
  pub offset_ticks : ℤ
  pub offset_min_ticks : ℤ
  pub offset_max_ticks : ℤ
  pub round_trip_ticks : ℕ

pub record DriftEstimate : Type 0 where
  pub ppb : ℤ
  pub min_ppb : ℤ
  pub max_ppb : ℤ
  pub baseline_ticks : ℕ

pub record ClockEstimate : Type 0 where
  pub anchor : OffsetObservation
  pub drift : DriftEstimate
  pub sampled_at : HostTick

pub record ControllerWindow : Type 0 where
  pub earliest : ControllerTick
  pub estimate : ControllerTick
  pub latest : ControllerTick

pub data ClockSyncError : Type 0 where
  invalid_slew_bound host_regressed controller_regressed : ClockSyncError
  controller_processing_exceeds_round_trip insufficient_separation : ClockSyncError
  arithmetic_overflow estimate_unavailable host_tick_before_session : ClockSyncError

pub record ClockSync : Type 0 where
  pub max_slew_ppb : ℤ
  pub session_start : Option HostTick
  pub previous : Option OffsetObservation
  pub estimate : Option ClockEstimate
  pub last_raw : Option ClockSample
