-- ===== src/Simulator/Controller/Judged.antt =====
-- crates/simulator/src/lib.rs: every way in which an incoming command is judged.
use mathlib.Core.Path.{subst}
use dryer.Base.{
  ◌%◌, ◌≤◌, ◌<◌, ◌==◌, ◌≡◌, ◌≢◌, refl, ap, sym, inl, inr, ◌⊎◌, not, List, [], ◌∷◌, ◌++◌, All,
  Option, none, some, length, ltb, leb, ltb→lt, ltb_false→le, if_either, arith,
}
use dryer.Base.Words.{saturating_add}
use dryer.Protocol.{Tick, Command, CommandEnvelope}
use dryer.Simulator.Controller.{
  SimController, QueuedCommand, Reason, FaultCode, fault_latched, heartbeat_scheduled, not_aligned,
  before_earliest, after_latest, queue_is_full, accepted, rejected, queue_status_of, step_ticks,
}
use dryer.Simulator.Controller.Accept.{
  what_of, insert_queued, window_refusal, time_refusal, scheduled_for_of, enqueue_at, accept_timed,
  beat, accept_sound, accept_under, accept,
}

-- The front of the list, if there is one, is later.
abbrev pub FirstLater : QueuedCommand → List QueuedCommand → Type 0
FirstLater queued [] = Unit {0}
FirstLater queued (other ∷ rest) = queued.execute_at < other.execute_at

-- The command stands in the queue behind those that are no later, before the first that is later,
-- and the others keep their order.
abbrev pub Placed : QueuedCommand → List QueuedCommand → List QueuedCommand → Type 0
Placed queued queue queue' =
    (before : List QueuedCommand) × (after : List QueuedCommand) × (queue ≡ before ++ after)
    × (queue' ≡ before ++ (queued ∷ after))
    × All (λ other. other.execute_at ≤ queued.execute_at) before
    × FirstLater queued after

insert_queued-Placed :
    (queued : QueuedCommand) (queue : List QueuedCommand)
    → Placed queued queue (insert_queued queued queue)
unfolding insert_queued
insert_queued-Placed queued [] = ([], [], refl, refl, tt, tt)
insert_queued-Placed queued (existing ∷ rest) =
    if_either (Placed queued (existing ∷ rest)) (ltb queued.execute_at existing.execute_at)
      (λ later. ([], existing ∷ rest, refl, refl, tt, ltb→lt _ _ later))
      (λ no_later.
        let (before, after, split, placed, low, high) = insert_queued-Placed queued rest in
        (
          existing ∷ before,
          after,
          ap (◌∷◌ existing) split,
          ap (◌∷◌ existing) placed,
          (ltb_false→le _ _ no_later, low),
          high,
        ))

module _ {F : Type 0} (c : SimController F) (envelope : CommandEnvelope) where
  -- The window of accepted times, from the present time on.
  abbrev pub earliest : Tick
  earliest = saturating_add c.now c.queue_window.min_lead_ticks

  abbrev pub latest : Tick
  latest = saturating_add c.now c.queue_window.max_horizon_ticks

  -- The time at which a command is queued: now, or what it asks for, on the step and in the window.
  abbrev pub Timely : Option Tick → Tick → Type 0
  Timely none at = at ≡ c.now
  Timely (some execute_at) at =
      (at ≡ execute_at) × (at % step_ticks ≡ 0) × (earliest ≤ at) × (at ≤ latest)

  abbrev pub queued_at : Tick → QueuedCommand
  queued_at at = record { execute_at = at; command = envelope.command }

  -- The reason that a refusal gives is true.
  abbrev pub Justified : Reason → Type 0
  Justified (fault_latched code) = c.latched_fault ≡ some code
  Justified heartbeat_scheduled =
      (envelope.command ≡ Command.heartbeat) × ((at : Tick) × (envelope.execute_at ≡ some at))
  Justified (not_aligned timestamp) =
      (envelope.execute_at ≡ some timestamp) × (0 < timestamp % step_ticks)
  Justified (before_earliest timestamp bound) =
      (envelope.execute_at ≡ some timestamp) × (bound ≡ earliest) × (timestamp < bound)
  Justified (after_latest timestamp bound) =
      (envelope.execute_at ≡ some timestamp) × (bound ≡ latest) × (bound < timestamp)
  Justified queue_is_full = c.queue_capacity ≤ length c.queue

  abbrev pub Refused : SimController F → Type 0
  Refused after =
      (reason : Reason) × (after
        ≡ record c { trace = c.trace ++ (rejected c.now (what_of envelope) reason ∷ []) })
      × Justified reason

  abbrev pub Queued : SimController F → Type 0
  Queued after =
      (at : Tick) × (queue : List QueuedCommand) × (after
        ≡ record c { queue = queue; trace = c.trace ++ (accepted c.now (what_of envelope) ∷ []) })
      × Placed (queued_at at) c.queue queue
      × (envelope.command ≢ Command.heartbeat)
      × (c.latched_fault ≡ none)
      × Timely envelope.execute_at at
      × (length c.queue < c.queue_capacity)

  abbrev pub Beaten : SimController F → Type 0
  Beaten after =
      (after ≡ record c { last_heartbeat = c.now })
      × (c.latched_fault ≡ none)
      × (envelope.command ≡ Command.heartbeat)
      × (envelope.execute_at ≡ none)

  abbrev pub Judged : SimController F → Type 0
  Judged after = Queued after ⊎ (Refused after ⊎ Beaten after)

  module _ (sound : c.latched_fault ≡ none) where
    enqueue_at-Judged :
        (at : Tick)
        → envelope.command ≢ Command.heartbeat
        → Timely envelope.execute_at at
        → Judged (enqueue_at c (what_of envelope) at envelope.command)
    unfolding enqueue_at
    enqueue_at-Judged at other timely =
        if_either Judged (leb c.queue_capacity (length c.queue))
          (λ full. inr (inl (queue_is_full, refl, ground (arith, full))))
          (λ room. inl (
            at,
            insert_queued (queued_at at) c.queue,
            refl,
            insert_queued-Placed (queued_at at) c.queue,
            other,
            sound,
            timely,
            ground (arith, room),
          ))

    -- The tests of the time: the first that fails gives its reason.
    Tested : Tick → Option Reason → Type 0
    Tested at none = Timely (some at) at
    Tested at (some reason) = envelope.execute_at ≡ some at → Justified reason

    window_refusal-Tested : (at : Tick) → Tested at (window_refusal c at)
    unfolding window_refusal Tested
    window_refusal-Tested at =
        if_either (Tested at) (not (at % step_ticks == 0)) (λ off is. (is, ground (arith, off)))
          (λ on.
            if_either (Tested at) (ltb at (queue_status_of c).earliest_accepted_timestamp)
              (λ early is. (is, refl, ltb→lt _ _ early))
              (λ late_enough.
                if_either (Tested at) (ltb (queue_status_of c).latest_accepted_timestamp at)
                  (λ late is. (is, refl, ltb→lt _ _ late))
                  (λ early_enough. (
                    refl,
                    ground (arith, on),
                    ltb_false→le _ _ late_enough,
                    ltb_false→le _ _ early_enough,
                  ))))

    by_time :
        (at : Tick) (reason : Option Reason)
        → envelope.command ≢ Command.heartbeat
        → Tested at reason
        → envelope.execute_at ≡ some at
        → Judged (accept_timed reason c envelope)
    unfolding accept_timed Tested
    by_time at (some reason) other tested is = inr (inl (reason, refl, tested is))
    by_time at none other tested is =
        enqueue_at-Judged (scheduled_for_of c envelope.execute_at) other
          (subst (λ asked. Timely asked (scheduled_for_of c asked)) (sym is) tested)

    accept_queued-Judged :
        (asked : Option Tick)
        → envelope.command ≢ Command.heartbeat
        → envelope.execute_at ≡ asked
        → Judged (accept_timed (time_refusal c asked) c envelope)
    unfolding accept_timed
    accept_queued-Judged none other is =
        enqueue_at-Judged (scheduled_for_of c envelope.execute_at) other
          (subst (λ asked. Timely asked (scheduled_for_of c asked)) (sym is) refl)
    accept_queued-Judged (some at) other is =
        by_time at (window_refusal c at) other (window_refusal-Tested at) is

    beat-Judged :
        (asked : Option Tick)
        → envelope.execute_at ≡ asked
        → envelope.command ≡ Command.heartbeat
        → Judged (beat asked c envelope)
    unfolding beat
    beat-Judged none is heart = inr (inr (refl, sound, heart, is))
    beat-Judged (some at) is heart = inr (inl (heartbeat_scheduled, refl, (heart, (at, is))))

    accept_sound-Judged :
        (command : Command) → envelope.command ≡ command → Judged (accept_sound c envelope command)
    unfolding accept_sound
    accept_sound-Judged Command.heartbeat is = beat-Judged envelope.execute_at refl is
    accept_sound-Judged (Command.set_heater_target heater target) is =
        accept_queued-Judged envelope.execute_at (λ heart. cc) refl
    accept_sound-Judged (Command.home axis rate) is =
        accept_queued-Judged envelope.execute_at (λ heart. cc) refl
    accept_sound-Judged (Command.move axis distance rate) is =
        accept_queued-Judged envelope.execute_at (λ heart. cc) refl

  accept_under-Judged :
      (fault : Option FaultCode) → c.latched_fault ≡ fault → Judged (accept_under fault c envelope)
  unfolding accept_under
  accept_under-Judged (some code) is = inr (inl (fault_latched code, refl, is))
  accept_under-Judged none is = accept_sound-Judged is envelope.command refl

  -- A command meets one of three ends. It is no heartbeat and is queued, where no fault is latched and
  -- the queue has room, for now or for the time that it asks for, which is on the step and no nearer
  -- than the minimum lead nor farther than the horizon: it goes in front of the first queued command
  -- that is later and behind those that are not, whose order stays, and adds one event to the trace.
  -- Or it is refused, which adds one event to the trace and changes nothing else, for a reason that is
  -- true. Or it is a heartbeat for now, with no fault latched, and only the time of the last one changes.
  pub accept-Judged : Judged (accept c envelope)
  accept-Judged = accept_under-Judged c.latched_fault refl
