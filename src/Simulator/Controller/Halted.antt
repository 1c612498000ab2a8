-- ===== src/Simulator/Controller/Halted.antt =====
-- crates/simulator/src/lib.rs: a reset, and what a latched fault stops.
use dryer.Base.{
  ℕ, suc, ◌+◌, ◌*◌, ◌^◌, ◌≤◌, ◌≡◌, refl, sym, ap, ◌∙◌, none, some, List, [], ◌∷◌, All, if_either,
  arith,
}
use mathlib.Core.Path.{subst}
use dryer.Base.Int.{pos}
use dryer.Protocol.{Tick, CommandEnvelope}
use dryer.Simulator.CommandLink.{SimTransport, deliver_due}
use dryer.Simulator.Controller.{
  SimController, HeaterState, AxisState, Float, FaultCode, controller_reset, step_ticks,
}
use dryer.Simulator.Controller.Accept.{accept_under, accept, accept_all, cooled, stopped, reset}
use dryer.Simulator.Controller.Ordered.{WellQueued}
use dryer.Simulator.Controller.Rounds.{sample_temps_same, run_keeps}
use dryer.Simulator.Controller.Start.{start_from, start_due}
use dryer.Simulator.Controller.Step.{
  advance, overdue, checked_heater, check_heartbeats, warmed, warm, axis_step, axis_steps,
  drive_axes, tick, run,
}
use dryer.Simulator.Controller.Envelope.{All-map, trivially}

resting :
    (now : Tick) (axes : List AxisState)
    → All (λ a. a.motion ≡ none) axes
    → axis_steps now axes ≡ (axes, [])
unfolding axis_steps axis_step
resting now [] h = refl
resting now (a ∷ rest) (still, h) = rw (still, resting now rest h) refl

module _ {F : Type 0} where
  -- A fault is latched and nothing is left to do: no command waits, every heater's target is 0 and no
  -- axis moves.
  abbrev pub Halted : SimController F → Type 0
  Halted c =
      (c.latched_fault ≡ some controller_reset)
      × (c.queue ≡ [])
      × All (λ h. h.target_milli_c ≡ pos 0) c.heaters
      × All (λ a. a.motion ≡ none) c.axes

  -- What a refused command leaves as it is.
  abbrev Same : SimController F → SimController F → Type 0
  Same before after =
      (after.latched_fault ≡ before.latched_fault)
      × (after.queue ≡ before.queue)
      × (after.heaters ≡ before.heaters)
      × (after.axes ≡ before.axes)

  accept-Same :
      (c : SimController F) (envelope : CommandEnvelope) {code : FaultCode}
      → c.latched_fault ≡ some code
      → Same c (accept c envelope)
  unfolding accept_under
  accept-Same c envelope is =
      subst (λ fault. Same c (accept_under fault c envelope)) (sym is) (refl, refl, refl, refl)

  accept_all-Same :
      (c : SimController F) (envelopes : List CommandEnvelope) {code : FaultCode}
      → c.latched_fault ≡ some code
      → Same c (accept_all c envelopes)
  unfolding accept_all
  accept_all-Same c [] is = (refl, refl, refl, refl)
  accept_all-Same c (envelope ∷ rest) is =
      let (f, q, h, a) = accept-Same c envelope is in
      let (f', q', h', a') = accept_all-Same (accept c envelope) rest (f ∙ is) in
      (f' ∙ f, q' ∙ q, h' ∙ h, a' ∙ a)

  start_due-Same : (c : SimController F) → c.queue ≡ [] → Same c (start_due c)
  unfolding start_from
  start_due-Same c empty =
      subst (λ queue. Same c (start_from queue c)) (sym empty) (refl, sym empty, refl, refl)

  checked_target :
      (now last_heartbeat : Tick) (h : HeaterState F)
      → h.target_milli_c ≡ pos 0
      → (checked_heater now last_heartbeat h).target_milli_c ≡ pos 0
  checked_target now last_heartbeat h is =
      if_either (λ (h' : HeaterState F). h'.target_milli_c ≡ pos 0) (overdue now last_heartbeat h)
        (λ _. refl) (λ _. is)

  module _ (float : Float F) where
    tick-Halted :
        (c : SimController F) (t : SimTransport)
        → Halted c
        → Halted ((tick float c t).0) × ((tick float c t).0.axes ≡ c.axes)
    unfolding tick check_heartbeats warm drive_axes
    tick-Halted c t (latched, empty, cold, still) =
        let begun = advance c in
        let taken = accept_all begun ((deliver_due t begun.now).0) in
        let ready = start_due taken in
        let last = drive_axes (warm float (check_heartbeats ready)) in
        let (f, q, h, a) = accept_all-Same begun ((deliver_due t begun.now).0) latched in
        let (f', q', h', a') = start_due-Same taken (q ∙ empty) in
        let (_, queue_same, _, heaters_same, axes_same, _, fault_same) =
          sample_temps_same float last in
        let stay =
          resting ready.now ready.axes (subst (All (λ a. a.motion ≡ none)) (sym (a' ∙ a)) still) in
        let cold_ready = subst (All (λ h. h.target_milli_c ≡ pos 0)) (sym (h' ∙ h)) cold in
        let cold_checked =
          All-map (λ h. h.target_milli_c ≡ pos 0) (λ h. h.target_milli_c ≡ pos 0)
            (checked_heater ready.now ready.last_heartbeat)
            (λ h is. checked_target ready.now ready.last_heartbeat h is) ready.heaters cold_ready in
        let cold_warm =
          All-map (λ h. h.target_milli_c ≡ pos 0) (λ h. h.target_milli_c ≡ pos 0)
            (warmed float ready.ambient_milli_c) (λ h is. is) _ cold_checked in
        let axes_are : (tick float c t).0.axes ≡ c.axes =
          axes_same ∙ ap (λ out. out.0) stay ∙ a' ∙ a in
        (
          (
            fault_same ∙ f' ∙ f ∙ latched,
            queue_same ∙ q' ∙ q ∙ empty,
            subst (All (λ h. h.target_milli_c ≡ pos 0)) (sym heaters_same) cold_warm,
            subst (All (λ a. a.motion ≡ none)) (sym axes_are) still,
          ),
          axes_are,
        )

    reset-Halted :
        (c : SimController F) → Halted (reset c) × WellQueued (reset c) × ((reset c).now ≡ c.now)
    unfolding reset
    reset-Halted c = (
      (
        refl,
        refl,
        All-map (λ h. Unit {0}) (λ h. h.target_milli_c ≡ pos 0) cooled (λ h _. refl) c.heaters
            (trivially c.heaters),
        All-map (λ a. Unit {0}) (λ a. a.motion ≡ none) stopped (λ a _. refl) c.axes
            (trivially c.axes),
      ),
      (tt, omega arith),
      refl,
    )

    -- After a reset the loop still ends, at or behind its target. Until then, whatever arrives, the fault
    -- stays latched, no command waits, every heater's target is 0, and every axis stays where the reset
    -- has stopped it. One round more than there are milliseconds to go is enough.
    pub run-Halted :
        (fuel : ℕ) (c : SimController F) (t : SimTransport) (until : Tick)
        → until + step_ticks ≤ 2 ^ 64
        → until ≤ c.now + step_ticks * fuel
        → (c' : SimController F) × (t' : SimTransport) × (run float (suc fuel) (reset c) t until
            ≡ some (c', t'))
          × Halted c'
          × (c'.axes ≡ (reset c).axes)
          × (until ≤ c'.now)
    run-Halted fuel c t until small enough =
        let (halted, well, now_same) = reset-Halted c in
        let (c', t', ends, (halted', axes), _, reached) =
          run_keeps float (λ s. Halted s × (s.axes ≡ (reset c).axes))
            (λ s link (h, same). let (h', same') = tick-Halted s link h in (h', same' ∙ same)) fuel
            (reset c) t until (halted, refl) well small (omega (arith, enough, now_same)) in
        (c', t', ends, halted', axes, reached)
