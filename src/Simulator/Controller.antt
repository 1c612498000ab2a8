-- ===== src/Simulator/Controller.antt =====
-- crates/simulator/src/lib.rs: the simulated controller's data. A text of the trace is kept as the
-- values that it is formatted from. `f64` temperatures are of a type F, with the operations that the
-- plant uses as a parameter.
pub mod Accept
pub mod Start
pub mod Step
pub mod Wire
pub mod Ordered
pub mod Rounds
pub mod Envelope
pub mod Halted
pub mod Judged
mod Examples
use dryer.Base.{
  ℕ, ◌*◌, Bool, false, Option, none, some, List, [], ◌∷◌, ◌++◌, Result, ok, err, length, map, ltb,
  if◌then◌else◌,
}
use dryer.Base.Int.{ℤ, pos}
use dryer.Base.Names.{same_bytes}
use dryer.Base.Words.{saturating_add}
use dryer.Protocol.{Tick, Str, Command}

abbrev pub ticks_per_ms : Tick
ticks_per_ms = 1_000

abbrev pub step_ticks : Tick
step_ticks = ticks_per_ms

-- `summarize`, with the time of a scheduled command, and what is traced when a command executes.
pub data What : Type 0 where
  summary : (command : Command) → What
  scheduled_summary : (command : Command) (execute_at : Tick) → What
  heater_target : (heater : Str) (target_milli_c : ℤ) → What
  homing_of : (axis : Str) → What
  move_of : (axis : Str) (distance_um : ℤ) → What

-- The only fault that latches.
pub data FaultCode : Type 0 where
  controller_reset : FaultCode

pub data Reason : Type 0 where
  fault_latched : (code : FaultCode) → Reason
  heartbeat_scheduled : Reason
  not_aligned : (timestamp : Tick) → Reason
  before_earliest : (timestamp earliest : Tick) → Reason
  after_latest : (timestamp latest : Tick) → Reason
  queue_is_full : Reason

pub data Cause : Type 0 where
  by_reset by_heartbeat_loss : Cause

pub data Event : Type 0 where
  accepted : (at : Tick) (what : What) → Event
  rejected : (at : Tick) (what : What) (reason : Reason) → Event
  executed : (at : Tick) (what : What) → Event
  temp_sample : (at : Tick) (heater : Str) (milli_c : ℤ) → Event
  endstop : (at : Tick) (axis : Str) → Event
  safe_state : (at : Tick) (output state : Str) (cause : Cause) → Event
  fault_latch : (at : Tick) (code : FaultCode) → Event
  reset_event : (at : Tick) → Event

pub record HeaterCfg : Type 0 where
  pub name : Str
  pub gain_milli_c : ℤ
  pub tau_ms : ℕ
  pub safe_state : Str
  pub heartbeat_timeout : Option Tick

pub record AxisCfg : Type 0 where
  pub name : Str
  pub start_position_um : ℤ

pub record HeaterState (F : Type 0) : Type 0 where
  pub cfg : HeaterCfg
  pub milli_c : F
  pub target_milli_c : ℤ
  pub duty_on : Bool
  pub forced_safe : Bool

pub record Motion : Type 0 where
  pub what : What
  pub per_ms_um : ℤ
  pub remaining_um : ℤ
  pub homing : Bool

pub record AxisState : Type 0 where
  pub cfg : AxisCfg
  pub position_um : ℤ
  pub motion : Option Motion

pub record QueueWindow : Type 0 where
  pub min_lead_ticks : Tick
  pub max_horizon_ticks : Tick

pub record QueueWindowError : Type 0 where
  pub min_lead_ticks : Tick
  pub max_horizon_ticks : Tick

unfoldable pub new_window : Tick → Tick → Result QueueWindowError QueueWindow
new_window min_lead_ticks max_horizon_ticks =
    if ltb max_horizon_ticks min_lead_ticks
    then err (record { min_lead_ticks = min_lead_ticks; max_horizon_ticks = max_horizon_ticks })
    else ok (record { min_lead_ticks = min_lead_ticks; max_horizon_ticks = max_horizon_ticks })

abbrev pub default_window : QueueWindow
default_window = record {
  min_lead_ticks = 100 * ticks_per_ms;
  max_horizon_ticks = 1_000 * ticks_per_ms;
}

pub record SimQueueStatus : Type 0 where
  pub capacity : ℕ
  pub fill_level : ℕ
  pub earliest_accepted_timestamp : Tick
  pub latest_accepted_timestamp : Tick

pub record QueuedCommand : Type 0 where
  pub execute_at : Tick
  pub command : Command

pub record SimController (F : Type 0) : Type 0 where
  pub now : Tick
  pub ambient_milli_c : ℤ
  pub heaters : List (HeaterState F)
  pub axes : List AxisState
  pub queue : List QueuedCommand
  pub queue_capacity : ℕ
  pub queue_window : QueueWindow
  pub last_heartbeat : Tick
  pub latched_fault : Option FaultCode
  pub temp_sample_every : Tick
  pub next_temp_sample : Tick
  pub trace : List Event

-- The `f64` operations of the thermal plant.
pub record Float (F : Type 0) : Type 0 where
  pub from_i64 : ℤ → F
  pub from_u64 : ℕ → F
  pub truncated : F → ℤ
  pub rounded : F → ℤ
  pub add : F → F → F
  pub sub : F → F → F
  pub mul : F → F → F
  pub div : F → F → F

abbrev pub new_axis : AxisCfg → AxisState
new_axis cfg = record { cfg = cfg; position_um = cfg.start_position_um; motion = none }

unfoldable pub find_axis : List AxisState → Str → Option AxisState
find_axis [] name = none
find_axis (a ∷ rest) name =
    let later = find_axis rest name in if same_bytes a.cfg.name name then some a else later

module _ {F : Type 0} where
  abbrev pub new_heater : Float F → ℤ → HeaterCfg → HeaterState F
  new_heater float ambient_milli_c cfg = record {
    cfg = cfg;
    milli_c = float.from_i64 ambient_milli_c;
    target_milli_c = pos 0;
    duty_on = false;
    forced_safe = false;
  }

  abbrev pub new_controller_with : Float F → ℤ → List HeaterCfg → List AxisCfg → SimController F
  new_controller_with float ambient_milli_c heaters axes = record {
    now = 0;
    ambient_milli_c = ambient_milli_c;
    heaters = map (new_heater float ambient_milli_c) heaters;
    axes = map new_axis axes;
    queue = [];
    queue_capacity = 16;
    queue_window = default_window;
    last_heartbeat = 0;
    latched_fault = none;
    temp_sample_every = 100 * ticks_per_ms;
    next_temp_sample = 100 * ticks_per_ms;
    trace = [];
  }

  abbrev pub queue_status_of : SimController F → SimQueueStatus
  queue_status_of controller = record {
    capacity = controller.queue_capacity;
    fill_level = length controller.queue;
    earliest_accepted_timestamp =
        saturating_add controller.now controller.queue_window.min_lead_ticks;
    latest_accepted_timestamp =
        saturating_add controller.now controller.queue_window.max_horizon_ticks;
  }

  unfoldable pub find_heater : List (HeaterState F) → Str → Option (HeaterState F)
  find_heater [] name = none
  find_heater (h ∷ rest) name =
      let later = find_heater rest name in if same_bytes h.cfg.name name then some h else later

  unfoldable pub heater_milli_c : Float F → SimController F → Str → Option ℤ
  heater_milli_c float controller name = elim (find_heater controller.heaters name) [
    | none ↦ none
    | some h ↦ some (float.rounded h.milli_c)
  ]

  unfoldable pub axis_position_um : SimController F → Str → Option ℤ
  axis_position_um controller name = elim (find_axis controller.axes name) [
    | none ↦ none
    | some a ↦ some a.position_um
  ]

  abbrev pub set_queue_window : SimController F → QueueWindow → SimController F
  set_queue_window controller window = record controller { queue_window = window }

  abbrev pub traced : SimController F → Event → SimController F
  traced controller event = record controller { trace = controller.trace ++ (event ∷ []) }
