-- ===== src/Simulator/Controller/Examples.antt =====
-- crates/simulator/src/lib.rs: the controller with one heater and one axis, on whole numbers in place
-- of `f64`.
use dryer.Base.{◌≤◌, ◌≡◌, none, some, [], ◌∷◌, All, arith}
use dryer.Base.Int.{ℤ, pos, ◌+ℤ◌, ◌-ℤ◌, ◌*ℤ◌, quotient}
use dryer.Protocol.{Command, CommandEnvelope}
use dryer.Simulator.CommandLink.{SimTransport, new_command_link, put_in_flight}
use dryer.Simulator.Controller.{SimController, Float, HeaterCfg, AxisCfg, new_controller_with}
use dryer.Simulator.Controller.Accept.{accept, reset}
use dryer.Simulator.Controller.Judged.{Judged, accept-Judged}
use dryer.Simulator.Controller.Envelope.{Guarded, tick-Guarded}
use dryer.Simulator.Controller.Halted.{Halted, run-Halted}
use dryer.Simulator.Controller.Ordered.{WellQueued}
use dryer.Simulator.Controller.Rounds.{run-WellQueued}
use dryer.Simulator.Controller.Step.{tick, run}

abbrev whole : Float ℤ
whole = record {
  from_i64 = λ a. a;
  from_u64 = pos;
  truncated = λ a. a;
  rounded = λ a. a;
  add = ◌+ℤ◌;
  sub = ◌-ℤ◌;
  mul = ◌*ℤ◌;
  div = quotient;
}

abbrev hotend : HeaterCfg
hotend = record {
  name = b'h' ∷ [];
  gain_milli_c = pos 200_000;
  tau_ms = 1;
  safe_state = b'o' ∷ b'f' ∷ b'f' ∷ [];
  heartbeat_timeout = some 500_000;
}

abbrev axis : AxisCfg
axis = record { name = b'x' ∷ []; start_position_um = pos 5_000 }

abbrev rig : SimController ℤ
rig = new_controller_with whole (pos 25_000) (hotend ∷ []) (axis ∷ [])

abbrev heat : CommandEnvelope
heat = record { execute_at = none; command = Command.set_heater_target (b'h' ∷ []) (pos 60_000) }

abbrev link : SimTransport
link = put_in_flight 200 heat (
    new_command_link (record {
      latency_ticks = 200;
      jitter_ticks = 0;
      loss_per_mille = 0;
      dup_per_mille = 0;
      seed = 0;
    }))

run-WellQueued_example :
    (c' : SimController ℤ) × (t' : SimTransport) × (run whole 4 rig link 3_000 ≡ some (c', t'))
    × WellQueued c'
    × (3_000 ≤ c'.now)
run-WellQueued_example =
    run-WellQueued whole 3 rig link 3_000 (tt, omega arith) (omega arith) (omega arith)

-- The heartbeat is overdue when the heater is on.
abbrev late : SimController ℤ
late = record rig { now = 900_000 }

tick-Guarded_example :
    let after = (tick whole late link).0 in
    All (Guarded after.now after.last_heartbeat) after.heaters
tick-Guarded_example = tick-Guarded whole late link

run-Halted_example :
    (c' : SimController ℤ) × (t' : SimTransport) × (run whole 4 (reset rig) link 3_000
      ≡ some (c', t'))
    × Halted c'
    × (c'.axes ≡ (reset rig).axes)
    × (3_000 ≤ c'.now)
run-Halted_example = run-Halted whole 3 rig link 3_000 (omega arith) (omega arith)

accept-Judged_example : Judged rig heat (accept rig heat)
accept-Judged_example = accept-Judged rig heat
