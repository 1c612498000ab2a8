-- ===== src/Simulator/Controller/Ordered.antt =====
-- crates/simulator/src/lib.rs: the queue stays in order and within its capacity, and `run` ends.
use dryer.Base.{
  suc, ◌≤◌, ◌≡◌, refl, ap, ◌∙◌, Option, none, some, List, [], ◌∷◌, All, length, ltb, leb, ltb→lt,
  ltb_false→le, if_either, arith,
}
use dryer.Base.Int.{ℤ}
use dryer.Protocol.{Tick, Str, Command, CommandEnvelope}
use dryer.Simulator.Controller.{SimController, HeaterState, QueuedCommand, What, FaultCode, Reason}
use dryer.Simulator.Controller.Accept.{
  insert_queued, enqueue_at, accept_timed, beat, accept_sound, accept_under, accept, accept_all,
  time_refusal, scheduled_for_of, what_of,
}
use dryer.Simulator.Controller.Start.{aim_at, aimed, start, start_from}

abbrev pub Sorted : List QueuedCommand → Type 0
Sorted [] = Unit {0}
Sorted (queued ∷ rest) = All (λ later. queued.execute_at ≤ later.execute_at) rest × Sorted rest

insert_queued_all :
    (P : QueuedCommand → Type 0) (queued : QueuedCommand) (queue : List QueuedCommand)
    → P queued
    → All P queue
    → All P (insert_queued queued queue)
unfolding insert_queued
insert_queued_all P queued [] p h = (p, tt)
insert_queued_all P queued (existing ∷ rest) p (q, h) =
    if_either (All P) (ltb queued.execute_at existing.execute_at) (λ _. (p, (q, h)))
      (λ _. (q, insert_queued_all P queued rest p h))

All_weaker :
    (low high : Tick) (queue : List QueuedCommand)
    → low ≤ high
    → All (λ later. high ≤ later.execute_at) queue
    → All (λ later. low ≤ later.execute_at) queue
All_weaker low high [] h all = tt
All_weaker low high (queued ∷ rest) h (p, all) =
    (omega (arith, h, p), All_weaker low high rest h all)

insert_queued-Sorted :
    (queued : QueuedCommand) (queue : List QueuedCommand)
    → Sorted queue
    → Sorted (insert_queued queued queue)
unfolding insert_queued
insert_queued-Sorted queued [] h = (tt, tt)
insert_queued-Sorted queued (existing ∷ rest) (low, h) =
    if_either Sorted (ltb queued.execute_at existing.execute_at)
      (λ sooner.
        let before = ltb→lt queued.execute_at existing.execute_at sooner in
        let below : queued.execute_at ≤ existing.execute_at = omega (arith, before) in
        ((below, All_weaker queued.execute_at existing.execute_at rest below low), (low, h)))
      (λ later. (
        insert_queued_all (λ other. existing.execute_at ≤ other.execute_at) queued rest
            (ltb_false→le queued.execute_at existing.execute_at later) low,
        insert_queued-Sorted queued rest h,
      ))

length-insert_queued :
    (queued : QueuedCommand) (queue : List QueuedCommand)
    → length (insert_queued queued queue) ≡ suc (length queue)
unfolding insert_queued
length-insert_queued queued [] = refl
length-insert_queued queued (existing ∷ rest) =
    if_either (λ (xs : List QueuedCommand). length xs ≡ suc (length (existing ∷ rest)))
      (ltb queued.execute_at existing.execute_at) (λ _. refl)
      (λ _. ap suc (length-insert_queued queued rest))

module _ {F : Type 0} where
  -- The queue in the order of execution, an earlier arrival first, and no longer than it may be.
  abbrev pub WellQueued : SimController F → Type 0
  WellQueued controller =
      Sorted controller.queue × (length controller.queue ≤ controller.queue_capacity)

  -- A step inside one tick.
  abbrev pub Fine : SimController F → SimController F → Type 0
  Fine before after =
      (after.now ≡ before.now)
      × (after.queue_capacity ≡ before.queue_capacity)
      × (WellQueued before → WellQueued after)

  Fine-trans : (a b c : SimController F) → Fine a b → Fine b c → Fine a c
  Fine-trans a b c (n, k, f) (n', k', f') = (n' ∙ n, k' ∙ k, (λ h. f' (f h)))

  enqueue_at-Fine :
      (controller : SimController F) (what : What) (at : Tick) (command : Command)
      → Fine controller (enqueue_at controller what at command)
  unfolding enqueue_at
  enqueue_at-Fine controller what at command =
      if_either (Fine controller) (leb controller.queue_capacity (length controller.queue))
        (λ full. (refl, refl, (λ h. h)))
        (λ room.
          let queued : QueuedCommand = record { execute_at = at; command = command } in
          let size = length-insert_queued queued controller.queue in
          (
            refl,
            refl,
            (λ (sorted, _).
                (insert_queued-Sorted queued controller.queue sorted, ground (arith, room, size))),
          ))

  accept_timed-Fine :
      (reason : Option Reason) (controller : SimController F) (envelope : CommandEnvelope)
      → Fine controller (accept_timed reason controller envelope)
  unfolding accept_timed
  accept_timed-Fine (some reason) controller envelope = (refl, refl, (λ h. h))
  accept_timed-Fine none controller envelope =
      enqueue_at-Fine controller (what_of envelope)
        (scheduled_for_of controller envelope.execute_at) envelope.command

  beat-Fine :
      (at : Option Tick) (controller : SimController F) (envelope : CommandEnvelope)
      → Fine controller (beat at controller envelope)
  unfolding beat
  beat-Fine (some execute_at) controller envelope = (refl, refl, (λ h. h))
  beat-Fine none controller envelope = (refl, refl, (λ h. h))

  accept_sound-Fine :
      (controller : SimController F) (envelope : CommandEnvelope) (command : Command)
      → Fine controller (accept_sound controller envelope command)
  unfolding accept_sound
  accept_sound-Fine controller envelope Command.heartbeat =
      beat-Fine envelope.execute_at controller envelope
  accept_sound-Fine controller envelope (Command.set_heater_target heater target_milli_c) =
      accept_timed-Fine (time_refusal controller envelope.execute_at) controller envelope
  accept_sound-Fine controller envelope (Command.home axis rate_um_s) =
      accept_timed-Fine (time_refusal controller envelope.execute_at) controller envelope
  accept_sound-Fine controller envelope (Command.move axis distance_um rate_um_s) =
      accept_timed-Fine (time_refusal controller envelope.execute_at) controller envelope

  accept_under-Fine :
      (fault : Option FaultCode) (controller : SimController F) (envelope : CommandEnvelope)
      → Fine controller (accept_under fault controller envelope)
  unfolding accept_under
  accept_under-Fine (some code) controller envelope = (refl, refl, (λ h. h))
  accept_under-Fine none controller envelope =
      accept_sound-Fine controller envelope envelope.command

  pub accept_all-Fine :
      (controller : SimController F) (envelopes : List CommandEnvelope)
      → Fine controller (accept_all controller envelopes)
  unfolding accept_all
  accept_all-Fine controller [] = (refl, refl, (λ h. h))
  accept_all-Fine controller (envelope ∷ rest) =
      Fine-trans controller (accept controller envelope)
        (accept_all (accept controller envelope) rest)
        (accept_under-Fine controller.latched_fault controller envelope)
        (accept_all-Fine (accept controller envelope) rest)

  aim_at-Fine :
      (heaters : Option (List (HeaterState F))) (controller : SimController F) (heater : Str)
      (target : ℤ)
      → (let after = aim_at heaters controller heater target in
          (after.now ≡ controller.now) × (after.queue_capacity ≡ controller.queue_capacity))
  unfolding aim_at
  aim_at-Fine none controller heater target = (refl, refl)
  aim_at-Fine (some heaters) controller heater target = (refl, refl)

  start-Fine :
      (controller : SimController F) (command : Command)
      → (let after = start controller command in
          (after.now ≡ controller.now) × (after.queue_capacity ≡ controller.queue_capacity))
  unfolding start
  start-Fine controller Command.heartbeat = (refl, refl)
  start-Fine controller (Command.set_heater_target heater target) =
      aim_at-Fine (aimed heater target controller.heaters) controller heater target
  start-Fine controller (Command.home axis rate_um_s) = (refl, refl)
  start-Fine controller (Command.move axis distance_um rate_um_s) = (refl, refl)

  -- What is left of the queue is an end of it.
  pub start_from-Fine :
      (queue : List QueuedCommand) (controller : SimController F)
      → Sorted queue
      → (let after = start_from queue controller in
          (after.now ≡ controller.now)
          × (after.queue_capacity ≡ controller.queue_capacity)
          × Sorted after.queue
          × (length after.queue ≤ length queue))
  unfolding start_from
  start_from-Fine [] controller h = (refl, refl, tt, omega arith)
  start_from-Fine (queued ∷ rest) controller (low, h) =
      if_either
        (λ (after : SimController F).
          (after.now ≡ controller.now)
          × (after.queue_capacity ≡ controller.queue_capacity)
          × Sorted after.queue
          × (length after.queue ≤ length (queued ∷ rest)))
        (leb queued.execute_at controller.now)
        (λ due.
          let (n, k, sorted, short) = start_from-Fine rest (start controller queued.command) h in
          let (n', k') = start-Fine controller queued.command in
          (n ∙ n', k ∙ k', sorted, omega (arith, short)))
        (λ _. (refl, refl, (low, h), omega arith))
