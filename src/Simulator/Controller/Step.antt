-- ===== src/Simulator/Controller/Step.antt =====
-- crates/simulator/src/lib.rs: one step of `run`, and the loop.
use dryer.Base.{
  ℕ, zero, suc, ◌+◌, ◌-◌, ◌%◌, ◌^◌, ◌==◌, Bool, true, false, not, ◌&&◌, Option, none, some, List,
  [], ◌∷◌, ◌++◌, map, ltb, leb, if◌then◌else◌,
}
use dryer.Base.Int.{ℤ, pos, ◌+ℤ◌, ◌-ℤ◌, ltb_ℤ, magnitude, wrap64}
use dryer.Protocol.{Tick}
use dryer.Simulator.Controller.{
  SimController, HeaterState, AxisState, Motion, Float, by_heartbeat_loss, Event, executed,
  temp_sample, endstop, safe_state, step_ticks,
}
use dryer.Simulator.Controller.Accept.{accept_all}
use dryer.Simulator.Controller.Start.{start_due}
use dryer.Simulator.CommandLink.{SimTransport, deliver_due}

-- `position <= 0` ends a homing move at 0.
abbrev pub home_step : Tick → AxisState → Motion → AxisState × List Event
home_step now a m =
    let position = wrap64 (a.position_um +ℤ m.per_ms_um) in
    if not (ltb_ℤ (pos 0) position)
    then (
      record a { position_um = pos 0; motion = none },
      endstop now (a.cfg.name) ∷ executed now m.what ∷ [],
    )
    else (record a { position_um = position }, [])

-- `i64::abs`, which wraps at the least value.
abbrev pub abs64 : ℤ → ℤ
abs64 a = wrap64 (pos (magnitude a))

abbrev pub step_of : Motion → ℤ
step_of m = if ltb_ℤ (abs64 m.per_ms_um) (abs64 m.remaining_um) then m.per_ms_um else m.remaining_um

abbrev pub is_zero : ℤ → Bool
is_zero a = magnitude a == 0

abbrev pub move_step : Tick → AxisState → Motion → AxisState × List Event
move_step now a m =
    let step = step_of m in
    let position = wrap64 (a.position_um +ℤ step) in
    let remaining = wrap64 (m.remaining_um -ℤ step) in
    if is_zero remaining
    then (record a { position_um = position; motion = none }, executed now m.what ∷ [])
    else (
      record a { position_um = position; motion = some (record m { remaining_um = remaining }) },
      [],
    )

unfoldable pub axis_step : Tick → AxisState → AxisState × List Event
axis_step now a = elim a.motion [
  | none ↦ (a, [])
  | some m ↦ if m.homing then home_step now a m else move_step now a m
]

unfoldable pub axis_steps : Tick → List AxisState → List AxisState × List Event
axis_steps now [] = ([], [])
axis_steps now (a ∷ rest) =
    let (a', events) = axis_step now a in
    let (rest', later) = axis_steps now rest in (a' ∷ rest', events ++ later)

module _ {F : Type 0} where
  abbrev pub overdue : Tick → Tick → HeaterState F → Bool
  overdue now last_heartbeat h = elim h.cfg.heartbeat_timeout [
    | none ↦ false
    | some timeout ↦
        (not h.forced_safe && ltb_ℤ (pos 0) h.target_milli_c) && ltb timeout (now - last_heartbeat)
  ]

  abbrev pub forced : HeaterState F → HeaterState F
  forced h = record h { target_milli_c = pos 0; duty_on = false; forced_safe = true }

  abbrev pub checked_heater : Tick → Tick → HeaterState F → HeaterState F
  checked_heater now last_heartbeat h = if overdue now last_heartbeat h then forced h else h

  unfoldable pub forced_states : Tick → Tick → List (HeaterState F) → List Event
  forced_states now last_heartbeat [] = []
  forced_states now last_heartbeat (h ∷ rest) =
      let later = forced_states now last_heartbeat rest in
      if overdue now last_heartbeat h
      then safe_state now (h.cfg.name) (h.cfg.safe_state) by_heartbeat_loss ∷ later
      else later

  -- The safety envelope.
  unfoldable pub check_heartbeats : SimController F → SimController F
  check_heartbeats controller = record controller {
    heaters = map (checked_heater controller.now controller.last_heartbeat) controller.heaters;
    trace =
        controller.trace
        ++ forced_states controller.now controller.last_heartbeat controller.heaters;
  }

  module _ (float : Float F) where
    abbrev pub wants_heat : HeaterState F → Bool
    wants_heat h = not h.forced_safe && ltb_ℤ (float.truncated h.milli_c) h.target_milli_c

    -- The thermal plant: one explicit Euler step of a millisecond.
    abbrev pub warmed : ℤ → HeaterState F → HeaterState F
    warmed ambient_milli_c h =
        let duty_on = wants_heat h in
        let drive = if duty_on then float.from_i64 h.cfg.gain_milli_c else float.from_i64 (pos 0) in
        let ambient = float.from_i64 ambient_milli_c in
        let dt_over_tau = float.div (float.from_u64 1) (float.from_u64 h.cfg.tau_ms) in
        let change = float.mul (float.sub drive (float.sub h.milli_c ambient)) dt_over_tau in
        record h { duty_on = duty_on; milli_c = float.add h.milli_c change }

    unfoldable pub warm : SimController F → SimController F
    warm controller = record controller {
      heaters = map (warmed controller.ambient_milli_c) controller.heaters;
    }

module _ {F : Type 0} where
  unfoldable pub drive_axes : SimController F → SimController F
  drive_axes controller =
      let (axes, events) = axis_steps controller.now controller.axes in
      record controller { axes = axes; trace = controller.trace ++ events }

  abbrev pub advance : SimController F → SimController F
  advance controller = record controller { now = (controller.now + step_ticks) % 2 ^ 64 }

  module _ (float : Float F) where
    abbrev pub sample_of_heater : Tick → HeaterState F → Event
    sample_of_heater now h = temp_sample now (h.cfg.name) (float.rounded h.milli_c)

    unfoldable pub sample_temps : SimController F → SimController F
    sample_temps controller =
        if not (leb controller.next_temp_sample controller.now)
        then controller
        else record controller {
          next_temp_sample = (controller.next_temp_sample + controller.temp_sample_every) % 2 ^ 64;
          trace = controller.trace ++ map (sample_of_heater controller.now) controller.heaters;
        }

    -- One round of the loop, on the commands that were delivered for its tick.
    unfoldable pub tick : SimController F → SimTransport → SimController F × SimTransport
    tick controller transport =
        let started = advance controller in
        let (delivered, transport') = deliver_due transport started.now in
        let ready = check_heartbeats (start_due (accept_all started delivered)) in
        (sample_temps (drive_axes (warm float ready)), transport')

    -- The loop, on fuel: nothing when the fuel has run out.
    unfoldable pub run :
        ℕ → SimController F → SimTransport → Tick → Option (SimController F × SimTransport)
    run zero controller transport until = none
    run (suc fuel) controller transport until =
        let (controller', transport') = tick controller transport in
        let rest = run fuel controller' transport' until in
        if ltb controller.now until then rest else some (controller, transport)
