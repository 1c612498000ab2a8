-- ===== src/Simulator/Controller/Rounds.antt =====
-- crates/simulator/src/lib.rs: `run` ends, and keeps what each of its rounds keeps.
use dryer.Base.{
  ℕ, zero, suc, ◌+◌, ◌*◌, ◌%◌, ◌^◌, ◌≤◌, ◌≡◌, refl, ap, ◌∙◌, true, false, inl, inr, not, some,
  length, ltb, leb, ltb→lt, ltb_of_ge, ltb_false→le, if_either, Bool-cases, arith,
}
use dryer.Protocol.{Tick}
use dryer.Simulator.CommandLink.{SimTransport, deliver_due}
use dryer.Simulator.Controller.{SimController, Float, step_ticks}
use dryer.Simulator.Controller.Accept.{accept_all}
use dryer.Simulator.Controller.Ordered.{WellQueued, accept_all-Fine, start_from-Fine}
use dryer.Simulator.Controller.Start.{start_due}
use dryer.Simulator.Controller.Step.{
  advance, check_heartbeats, warm, drive_axes, sample_temps, tick, run,
}

module _ {F : Type 0} (float : Float F) where
  pub sample_temps_same :
      (c : SimController F)
      → ((sample_temps float c).now ≡ c.now)
        × ((sample_temps float c).queue ≡ c.queue)
        × ((sample_temps float c).queue_capacity ≡ c.queue_capacity)
        × ((sample_temps float c).heaters ≡ c.heaters)
        × ((sample_temps float c).axes ≡ c.axes)
        × ((sample_temps float c).last_heartbeat ≡ c.last_heartbeat)
        × ((sample_temps float c).latched_fault ≡ c.latched_fault)
  unfolding sample_temps
  sample_temps_same c =
      if_either
        (λ (s : SimController F).
          (s.now ≡ c.now)
          × (s.queue ≡ c.queue)
          × (s.queue_capacity ≡ c.queue_capacity)
          × (s.heaters ≡ c.heaters)
          × (s.axes ≡ c.axes)
          × (s.last_heartbeat ≡ c.last_heartbeat)
          × (s.latched_fault ≡ c.latched_fault))
        (not (leb c.next_temp_sample c.now)) (λ _. (refl, refl, refl, refl, refl, refl, refl))
        (λ _. (refl, refl, refl, refl, refl, refl, refl))

  -- The clock and the queue of a round.
  tick_lem :
      (c : SimController F) (t : SimTransport)
      → WellQueued c
      → ((tick float c t).0.now ≡ (c.now + step_ticks) % 2 ^ 64) × WellQueued ((tick float c t).0)
  unfolding tick check_heartbeats warm drive_axes
  tick_lem c t h =
      let begun = advance c in
      let taken = accept_all begun ((deliver_due t begun.now).0) in
      let ready = start_due taken in
      let last = drive_axes (warm float (check_heartbeats ready)) in
      let (now_sample, queue_sample, capacity_sample, _, _, _, _) = sample_temps_same last in
      let (now_taken, capacity_taken, well) = accept_all-Fine begun ((deliver_due t begun.now).0) in
      let (sorted, short) = well h in
      let (now_ready, capacity_ready, sorted', short') = start_from-Fine taken.queue taken sorted in
      (
        now_sample ∙ now_ready ∙ now_taken,
        (
          rw queue_sample sorted',
          omega (arith, ap length queue_sample, capacity_sample, capacity_ready, short, short'),
        ),
      )

  run_done :
      (fuel : ℕ) (c : SimController F) (t : SimTransport) (until : Tick)
      → ltb c.now until ≡ false
      → run float (suc fuel) c t until ≡ some (c, t)
  unfolding run
  run_done fuel c t until h = rw h refl

  run_on :
      (fuel : ℕ) (c : SimController F) (t : SimTransport) (until : Tick)
      → ltb c.now until ≡ true
      → run float (suc fuel) c t until
        ≡ run float fuel ((tick float c t).0) ((tick float c t).1) until
  unfolding run
  run_on fuel c t until h = rw h refl

  -- With fuel for one round more than there are milliseconds to go, the loop ends at or behind its
  -- target, by less than a step.
  pub run_keeps :
      (P : SimController F → Type 0)
      → ((c : SimController F) (t : SimTransport) → P c → P ((tick float c t).0))
      → (fuel : ℕ) (c : SimController F) (t : SimTransport) (until : Tick) → P c
      → WellQueued c
      → until + step_ticks ≤ 2 ^ 64
      → until ≤ c.now + step_ticks * fuel
      → (c' : SimController F) × (t' : SimTransport) × (run float (suc fuel) c t until
          ≡ some (c', t'))
        × P c'
        × WellQueued c'
        × (until ≤ c'.now)
  run_keeps P step zero c t until p well small enough = (
    c,
    t,
    run_done zero c t until (ltb_of_ge c.now until (omega (arith, enough))),
    p,
    well,
    omega (arith, enough),
  )
  run_keeps P step (suc fuel) c t until p well small enough = elim (Bool-cases (ltb c.now until)) [
    | inr done ↦ (c, t, run_done (suc fuel) c t until done, p, well, ltb_false→le c.now until done)
    | inl more ↦
        let (now_is, well') = tick_lem c t well in
        let early = ltb→lt c.now until more in
        let (c', t', ends, p', well'', reached) =
          run_keeps P step fuel ((tick float c t).0) ((tick float c t).1) until (step c t p) well'
            small (omega (arith, now_is, early, small, enough)) in
        (c', t', run_on (suc fuel) c t until more ∙ ends, p', well'', reached)
  ]

  -- `run` ends at or behind its target, whatever is delivered meanwhile, and the queue is then again in
  -- the order of execution and no longer than its capacity. One round more than there are milliseconds
  -- to go is enough.
  pub run-WellQueued :
      (fuel : ℕ) (c : SimController F) (t : SimTransport) (until : Tick)
      → WellQueued c
      → until + step_ticks ≤ 2 ^ 64
      → until ≤ c.now + step_ticks * fuel
      → (c' : SimController F) × (t' : SimTransport) × (run float (suc fuel) c t until
          ≡ some (c', t'))
        × WellQueued c'
        × (until ≤ c'.now)
  run-WellQueued fuel c t until well small enough =
      let (c', t', ends, _, well', reached) =
        run_keeps (λ s. Unit {0}) (λ s link _. tt) fuel c t until tt well small enough in
      (c', t', ends, well', reached)
