-- ===== src/Runner/Batches.antt =====
-- crates/workflow-runner/src/lib.rs: when a batch is dispatched, how large it is, and when its
-- commands are to run.
use dryer.Base.{
  ℕ, zero, suc, ◌+◌, ◌-◌, ◌≤◌, ◌<◌, ◌≡◌, ◌≢◌, ◌⊎◌, ◌↔◌, refl, true, false, inl, inr, Option, none,
  some, List, [], ◌∷◌, length, take, length-take, arith, leb, ◌==◌, if_either,
}
use dryer.Base.Words.{saturating_add}
use dryer.Daemon.{ControllerSessionStatus}
use dryer.Protocol.{CommandEnvelope, Tick}
use dryer.Runner.{
  WorkflowRunner, RunnerConfig, RunnerState, faulted, idle, running, throttled, underrun_warning,
  completed,
}
use dryer.Runner.Conserved.{step_cases, length-schedule}
use dryer.Runner.Dispatch.{
  Limits, limits_of, scheduled, next_dispatch_batch, dispatch_within, dispatch, batch_count_of,
  target_horizon_of, heartbeat_lost,
}
use dryer.Runner.Steps.{is_faulted}

-- The batch fits: without a status it is no larger than the target horizon. By the controller's
-- last status it is empty, or no larger than the target horizon and the controller's capacity
-- together with the commands that wait in the controller's queue.
abbrev pub Room : RunnerConfig → Option ControllerSessionStatus → ℕ → Type 0
Room config none sent = sent ≤ config.target_horizon
Room config (some status) sent =
    (sent ≡ 0)
    ⊎ ((status.queue_fill + sent ≤ config.target_horizon)
        × (status.queue_fill + sent ≤ status.queue_capacity))

Room-of :
    (r : WorkflowRunner) (last : Option ControllerSessionStatus) (n : ℕ)
    → let limits = limits_of (record r { last_controller_status = last }) in
      n ≤ target_horizon_of r limits - limits.fill → Room r.config last n
Room-of r none n h = omega (arith, h)
Room-of r (some status) zero h = inl refl
Room-of r (some status) (suc n) h = inr (omega (arith, h), omega (arith, h))

length_batch :
    (r : WorkflowRunner) (limits : Limits)
    → length ((dispatch r limits (batch_count_of r limits)).0) ≡ batch_count_of r limits
length_batch r limits = omega (
  arith,
  length-schedule limits r.config.schedule_lead_margin_us r.last_dispatched_tick
      (take (batch_count_of r limits) r.job_queue),
  length-take (batch_count_of r limits) r.job_queue,
)

-- A batch is no larger than the configured maximum, nor than the queue. By the controller's last
-- status it is empty, or together with the commands that wait in the controller's queue it is no
-- larger than the target horizon and than the controller's capacity; without a status it is no
-- larger than the target horizon.
pub next_dispatch_batch-fits :
    (r : WorkflowRunner)
    → let sent = length ((next_dispatch_batch r).0) in
      (sent ≤ r.config.max_batch_size)
      × (sent ≤ length r.job_queue)
      × Room r.config r.last_controller_status sent
next_dispatch_batch-fits r =
    step_cases
      (λ (p : List CommandEnvelope × WorkflowRunner).
        (length p.0 ≤ r.config.max_batch_size)
        × (length p.0 ≤ length r.job_queue)
        × Room r.config r.last_controller_status (length p.0))
      r (λ s. (omega arith, omega arith, Room-of r r.last_controller_status 0 (omega arith)))
      (λ limits same _ _ _. rw same (
        omega (arith, length_batch r (limits_of r)),
        omega (arith, length_batch r (limits_of r)),
        Room-of r r.last_controller_status _ (omega (arith, length_batch r (limits_of r))),
      ))

-- The controller takes commands: it has not lost its heartbeat, and fewer commands than the target
-- horizon and its capacity wait in its queue, as far as its last status tells.
abbrev pub Takes : RunnerConfig → Option ControllerSessionStatus → Type 0
Takes config none = 0 < config.target_horizon
Takes config (some status) =
    (status.heartbeat_ok ≡ true)
    × (status.queue_fill < config.target_horizon)
    × (status.queue_fill < status.queue_capacity)

abbrev pub Ready : WorkflowRunner → Type 0
Ready r =
    (r.state ≢ faulted)
    × (0 < length r.job_queue)
    × (0 < r.config.max_batch_size)
    × Takes r.config r.last_controller_status

-- A tick that is not before the earliest accepted one, nor before the one that was asked for, nor
-- less than the margin behind the last one.
abbrev pub Wanted : Limits → ℕ → Option Tick → Option Tick → Tick → Type 0
Wanted limits margin last asked t =
    (limits.earliest_accepted ≤ t)
    × ((s : Tick) → asked ≡ some s → s ≤ t)
    × ((l : Tick) → last ≡ some l → saturating_add l margin ≤ t)

-- The tick that a command got: the least that is wanted, or the latest accepted one. It is the
-- latest accepted one only where the command asked for a tick, the controller tells of a latest
-- tick (zero is none), and every wanted tick is behind that; and only a command that asked for no
-- tick gets one behind it.
abbrev pub Placed : Limits → ℕ → Option Tick → Option Tick → Tick → Type 0
Placed limits margin last asked tick =
    (Wanted limits margin last asked tick
      × ((t : Tick) → Wanted limits margin last asked t → tick ≤ t)
      × ((s : Tick) → asked ≡ some s → 0 < limits.latest_accepted → tick ≤ limits.latest_accepted))
    ⊎ ((asked ≢ none)
        × (0 < limits.latest_accepted)
        × (tick ≡ limits.latest_accepted)
        × ((t : Tick) → Wanted limits margin last asked t → limits.latest_accepted < t))

-- A batch with its ticks, beside the envelopes that it was made from.
pub data Timed (limits : Limits) (margin : ℕ)
    : Option Tick → List CommandEnvelope → List CommandEnvelope → Type 0 where
  done : {last : Option Tick} → Timed limits margin last [] []
  placed :
      {last : Option Tick} {e : CommandEnvelope} {es batch : List CommandEnvelope} (tick : Tick)
      → Placed limits margin last e.execute_at tick
      → Timed limits margin (some tick) es batch
      → Timed limits margin last (e ∷ es) (scheduled e tick ∷ batch)

sound_iff : (s : RunnerState) → (is_faulted s ≡ false) ↔ (s ≢ faulted)
sound_iff faulted = (λ e. cc, λ apart. absurd (apart refl))
sound_iff idle = (λ e same. cc, λ apart. refl)
sound_iff running = (λ e same. cc, λ apart. refl)
sound_iff throttled = (λ e same. cc, λ apart. refl)
sound_iff underrun_warning = (λ e same. cc, λ apart. refl)
sound_iff completed = (λ e same. cc, λ apart. refl)

Takes-iff :
    (r : WorkflowRunner) (last : Option ControllerSessionStatus)
    → let limits = limits_of (record r { last_controller_status = last }) in
      ((heartbeat_lost last ≡ false) × (limits.fill < target_horizon_of r limits))
      ↔ Takes r.config last
Takes-iff r none = (λ h. omega (arith, h.1), λ h. (refl, omega (arith, h)))
Takes-iff r (some status) = ground arith

module _ (r : WorkflowRunner) where
  takes_given :
      Ready r
      → (heartbeat_lost r.last_controller_status ≡ false)
        × ((limits_of r).fill < target_horizon_of r (limits_of r))
  takes_given ready = (Takes-iff r r.last_controller_status).1 ready.3

  -- A runner dispatches at least one command exactly where it is not faulted, its queue is not
  -- empty, the configured batch size is not zero, and the controller takes commands: without a status
  -- the target horizon is not zero, and with one the heartbeat is not lost, and fewer commands wait
  -- in the controller's queue than the target horizon and than the capacity.
  pub next_dispatch_batch-Ready : (0 < length ((next_dispatch_batch r).0)) ↔ Ready r
  unfolding next_dispatch_batch dispatch_within
  next_dispatch_batch-Ready =
      if_either Sent (is_faulted r.state)
        (λ bad. nothing (λ ready. cc ((sound_iff r.state).1 ready.0, bad)))
        (λ sound.
          if_either Sent (length r.job_queue == 0)
            (λ empty. nothing (λ ready. ground (arith, empty, ready.1)))
            (λ _.
              if_either Sent (heartbeat_lost r.last_controller_status)
                (λ lost. nothing (λ ready. cc ((takes_given ready).0, lost)))
                (λ alive.
                  if_either Sent (leb (target_horizon_of r (limits_of r)) (limits_of r).fill)
                    (λ full. nothing (λ ready. ground (arith, full, (takes_given ready).1)))
                    (λ room.
                      if_either Sent (batch_count_of r (limits_of r) == 0)
                        (λ none_left. nothing (λ ready.
                          ground (arith, none_left, (takes_given ready).1, ready.1, ready.2)))
                        (λ some_left. filled sound alive (ground (arith, room)))))))
    where
      Sent : List CommandEnvelope × WorkflowRunner → Type 0
      Sent p = (0 < length p.0) ↔ Ready r

      nothing : (Ready r → ⊥) → Sent ([], r)
      nothing busy = (λ h. absurd (omega (arith, h)), λ ready. absurd (busy ready))

      filled :
          is_faulted r.state ≡ false
          → heartbeat_lost r.last_controller_status ≡ false
          → (limits_of r).fill < target_horizon_of r (limits_of r)
          → Sent (dispatch r (limits_of r) (batch_count_of r (limits_of r)))
      filled sound alive room = (
        λ h. (
          (sound_iff r.state).0 sound,
          omega (arith, h, length_batch r (limits_of r)),
          omega (arith, h, length_batch r (limits_of r)),
          (Takes-iff r r.last_controller_status).0 (alive, room),
        ),
        λ ready. omega (arith, length_batch r (limits_of r), room, ready.1, ready.2),
      )
