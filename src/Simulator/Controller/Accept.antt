-- ===== src/Simulator/Controller/Accept.antt =====
-- crates/simulator/src/lib.rs: what the controller does with an incoming command, and its reset.
use dryer.Base.{
  ◌%◌, ◌==◌, false, not, Option, none, some, List, [], ◌∷◌, ◌++◌, length, map, ltb, leb,
  if◌then◌else◌,
}
use dryer.Base.Int.{pos}
use dryer.Protocol.{Tick, Command, CommandEnvelope}
use dryer.Simulator.Controller.{
  SimController, HeaterState, AxisState, QueuedCommand, What, summary, scheduled_summary, FaultCode,
  controller_reset, Reason, fault_latched, heartbeat_scheduled, not_aligned, before_earliest,
  after_latest, queue_is_full, by_reset, Event, accepted, rejected, safe_state, fault_latch,
  reset_event, queue_status_of, traced, step_ticks,
}

abbrev pub what_of : CommandEnvelope → What
what_of envelope = elim envelope.execute_at [
  | none ↦ summary envelope.command
  | some execute_at ↦ scheduled_summary envelope.command execute_at
]

-- Behind the commands that execute no later.
unfoldable pub insert_queued : QueuedCommand → List QueuedCommand → List QueuedCommand
insert_queued queued [] = queued ∷ []
insert_queued queued (existing ∷ rest) =
    let later = insert_queued queued rest in
    if ltb queued.execute_at existing.execute_at then queued ∷ existing ∷ rest else existing ∷ later

abbrev pub stopped : AxisState → AxisState
stopped axis = record axis { motion = none }

module _ {F : Type 0} where
  abbrev pub reject : SimController F → What → Reason → SimController F
  reject controller what reason = traced controller (rejected controller.now what reason)

  -- The tests of a scheduled command's time, in their order.
  unfoldable pub window_refusal : SimController F → Tick → Option Reason
  window_refusal controller scheduled_for =
      let status = queue_status_of controller in
      if not (scheduled_for % step_ticks == 0)
      then some (not_aligned scheduled_for)
      else if ltb scheduled_for status.earliest_accepted_timestamp
      then some (before_earliest scheduled_for status.earliest_accepted_timestamp)
      else if ltb status.latest_accepted_timestamp scheduled_for
      then some (after_latest scheduled_for status.latest_accepted_timestamp)
      else none

  abbrev pub time_refusal : SimController F → Option Tick → Option Reason
  time_refusal controller none = none
  time_refusal controller (some scheduled_for) = window_refusal controller scheduled_for

  abbrev pub scheduled_for_of : SimController F → Option Tick → Tick
  scheduled_for_of controller none = controller.now
  scheduled_for_of controller (some execute_at) = execute_at

  -- The queue takes the command, if it has room.
  unfoldable pub enqueue_at : SimController F → What → Tick → Command → SimController F
  enqueue_at controller what scheduled_for command =
      if leb controller.queue_capacity (length controller.queue)
      then reject controller what queue_is_full
      else record (traced controller (accepted controller.now what)) {
        queue =
            insert_queued (record { execute_at = scheduled_for; command = command })
              controller.queue;
      }

  -- A command that is no heartbeat, by what the tests of its time answer.
  unfoldable pub accept_timed : Option Reason → SimController F → CommandEnvelope → SimController F
  accept_timed (some reason) controller envelope = reject controller (what_of envelope) reason
  accept_timed none controller envelope =
      enqueue_at controller (what_of envelope) (scheduled_for_of controller envelope.execute_at)
        envelope.command

  abbrev pub accept_queued : SimController F → CommandEnvelope → SimController F
  accept_queued controller envelope =
      accept_timed (time_refusal controller envelope.execute_at) controller envelope

  -- A heartbeat, by the time that it asks for.
  unfoldable pub beat : Option Tick → SimController F → CommandEnvelope → SimController F
  beat (some execute_at) controller envelope =
      reject controller (what_of envelope) heartbeat_scheduled
  beat none controller envelope = record controller { last_heartbeat = controller.now }

  unfoldable pub accept_sound : SimController F → CommandEnvelope → Command → SimController F
  accept_sound controller envelope Command.heartbeat = beat envelope.execute_at controller envelope
  accept_sound controller envelope (Command.set_heater_target heater target_milli_c) =
      accept_queued controller envelope
  accept_sound controller envelope (Command.home axis rate_um_s) = accept_queued controller envelope
  accept_sound controller envelope (Command.move axis distance_um rate_um_s) =
      accept_queued controller envelope

  unfoldable pub accept_under :
      Option FaultCode → SimController F → CommandEnvelope → SimController F
  accept_under (some code) controller envelope =
      reject controller (what_of envelope) (fault_latched code)
  accept_under none controller envelope = accept_sound controller envelope envelope.command

  abbrev pub accept : SimController F → CommandEnvelope → SimController F
  accept controller envelope = accept_under controller.latched_fault controller envelope

  unfoldable pub accept_all : SimController F → List CommandEnvelope → SimController F
  accept_all controller [] = controller
  accept_all controller (envelope ∷ rest) = accept_all (accept controller envelope) rest

  abbrev pub cooled : HeaterState F → HeaterState F
  cooled heater = record heater { target_milli_c = pos 0; duty_on = false; forced_safe = false }

  abbrev reset_states : Tick → List (HeaterState F) → List Event
  reset_states at [] = []
  reset_states at (heater ∷ rest) =
      safe_state at (heater.cfg.name) (heater.cfg.safe_state) by_reset ∷ reset_states at rest

  unfoldable pub reset : SimController F → SimController F
  reset controller =
      let at = controller.now in
      record controller {
        heaters = map cooled controller.heaters;
        axes = map stopped controller.axes;
        queue = [];
        latched_fault = some controller_reset;
        trace =
            controller.trace
            ++ ((reset_event at ∷ reset_states at controller.heaters)
                ++ (fault_latch at controller_reset ∷ []));
      }
