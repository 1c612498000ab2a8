-- ===== src/Simulator/Controller/Start.antt =====
-- crates/simulator/src/lib.rs: the commands that are due start.
use dryer.Base.{ℕ, zero, suc, true, false, Option, none, some, List, [], ◌∷◌, leb, if◌then◌else◌}
use dryer.Base.Int.{ℤ, pos, negsuc, ◌-ℤ◌, ◌*ℤ◌, quotient, wrap64, of_bits64}
use dryer.Base.Names.{same_bytes}
use dryer.Protocol.{Str, Command}
use dryer.Simulator.Controller.{
  SimController, HeaterState, AxisState, Motion, QueuedCommand, heater_target, homing_of, move_of,
  executed, traced,
}

module _ {F : Type 0} where
  -- `iter_mut().find(..)`: the first of the name, with its new target, if there is one.
  unfoldable pub aimed : Str → ℤ → List (HeaterState F) → Option (List (HeaterState F))
  aimed heater target_milli_c [] = none
  aimed heater target_milli_c (h ∷ rest) =
      let later = aimed heater target_milli_c rest in
      if same_bytes h.cfg.name heater
      then some (record h { target_milli_c = target_milli_c; forced_safe = false } ∷ rest)
      else elim later [ none ↦ none | some rest' ↦ some (h ∷ rest') ]

abbrev pub moving : Motion → AxisState → AxisState
moving motion axis = record axis { motion = some motion }

-- The first axis of the name moves; without one nothing does.
unfoldable pub set_in_motion : Str → Motion → List AxisState → List AxisState
set_in_motion name motion [] = []
set_in_motion name motion (a ∷ rest) =
    let later = set_in_motion name motion rest in
    if same_bytes a.cfg.name name then moving motion a ∷ rest else a ∷ later

-- `i64::signum`, and `x as i64` of a u64.
abbrev pub signum : ℤ → ℤ
signum (pos zero) = pos 0
signum (pos (suc n)) = pos 1
signum (negsuc n) = negsuc 0

unfoldable pub home_motion : Str → ℕ → Motion
home_motion axis rate_um_s = record {
  what = homing_of axis;
  per_ms_um = wrap64 (pos 0 -ℤ quotient (of_bits64 rate_um_s) (pos 1_000));
  remaining_um = pos 0;
  homing = true;
}

unfoldable pub move_motion : Str → ℤ → ℕ → Motion
move_motion axis distance_um rate_um_s = record {
  what = move_of axis distance_um;
  per_ms_um = quotient (wrap64 (signum distance_um *ℤ of_bits64 rate_um_s)) (pos 1_000);
  remaining_um = distance_um;
  homing = false;
}

module _ {F : Type 0} where
  -- What an aimed heater leaves, if there was one of the name.
  unfoldable pub aim_at :
      Option (List (HeaterState F)) → SimController F → Str → ℤ → SimController F
  aim_at none controller heater target_milli_c = controller
  aim_at (some heaters) controller heater target_milli_c =
      record (traced controller (executed controller.now (heater_target heater target_milli_c))) {
        heaters = heaters;
      }

  abbrev pub aim : SimController F → Str → ℤ → SimController F
  aim controller heater target_milli_c =
      aim_at (aimed heater target_milli_c controller.heaters) controller heater target_milli_c

  abbrev pub set_axis : SimController F → Str → Motion → SimController F
  set_axis controller axis motion = record controller {
    axes = set_in_motion axis motion controller.axes;
  }

  unfoldable pub start : SimController F → Command → SimController F
  start controller Command.heartbeat = controller
  start controller (Command.set_heater_target heater target_milli_c) =
      aim controller heater target_milli_c
  start controller (Command.home axis rate_um_s) =
      set_axis controller axis (home_motion axis rate_um_s)
  start controller (Command.move axis distance_um rate_um_s) =
      set_axis controller axis (move_motion axis distance_um rate_um_s)

  -- The loop over the front of the queue. A command that starts does not touch the queue.
  unfoldable pub start_from : List QueuedCommand → SimController F → SimController F
  start_from [] controller = record controller { queue = [] }
  start_from (queued ∷ rest) controller =
      let started = start_from rest (start controller queued.command) in
      if leb queued.execute_at controller.now
      then started
      else record controller { queue = queued ∷ rest }

  abbrev pub start_due : SimController F → SimController F
  start_due controller = start_from controller.queue controller
