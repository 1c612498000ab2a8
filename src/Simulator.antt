-- ===== src/Simulator.antt =====
-- crates/simulator/src: the simulated clock link (clock_transport.rs) and the simulated controller
-- (lib.rs). This file has the types of the clock link.
pub mod Stateful
pub mod Clocks
pub mod ClockTransport
pub mod Reads
pub mod Deliveries
pub mod Receive
pub mod Schedule
pub mod Requests
pub mod ClockCluster
pub mod Isolated
pub mod CommandLink
pub mod Controller
pub mod Traces
mod Examples
use dryer.Base.{ℕ, Bool, List}
use dryer.Base.Int.{ℤ}
use dryer.Protocol.{Tick, DecodeError, EncodeError}

-- One direction of the link.
pub record ClockLinkConfig : Type 0 where
  pub latency_ticks : Tick
  pub jitter_ticks : Tick
  pub loss_per_mille : ℕ
  pub dup_per_mille : ℕ

-- A signed rate against the host's clock, anchored at one instant of both.
pub record ControllerClock : Type 0 where
  pub host_epoch : Tick
  pub controller_epoch : Tick
  pub rate_ppb : ℤ

pub data ControllerClockError : Type 0 where
  non_positive_rate : (rate_ppb : ℤ) → ControllerClockError
  host_before_epoch : (host_tick host_epoch : Tick) → ControllerClockError
  arithmetic_overflow : ControllerClockError

pub record ClockTransportConfig : Type 0 where
  pub request : ClockLinkConfig
  pub response : ClockLinkConfig
  pub processing_ticks : Tick
  pub max_pending : ℕ
  pub seed : ℕ
  pub controller_clock : ControllerClock

-- The source's direction is the string "request" or "response".
pub data Direction : Type 0 where
  request_link response_link : Direction

pub data ClockTransportConfigError : Type 0 where
  invalid_loss_rate : (direction : Direction) (value : ℕ) → ClockTransportConfigError
  invalid_duplication_rate : (direction : Direction) (value : ℕ) → ClockTransportConfigError
  zero_pending_capacity : ClockTransportConfigError

pub data SimClockTransportError : Type 0 where
  decode : DecodeError → SimClockTransportError
  encode : EncodeError → SimClockTransportError
  clock : ControllerClockError → SimClockTransportError
  time_overflow : SimClockTransportError
  queue_full : (maximum : ℕ) → SimClockTransportError

pub record SimClockFrame : Type 0 where
  pub delivered_at : Tick
  pub bytes : List ℕ

pub record ScheduledResponse : Type 0 where
  pub delivered_at : Tick
  pub insertion_order : ℕ
  pub bytes : List ℕ

pub record SimClockTransport : Type 0 where
  pub cfg : ClockTransportConfig
  pub rng : ℕ
  pub next_insertion_order : ℕ
  pub pending : List ScheduledResponse
  pub link_up : Bool
