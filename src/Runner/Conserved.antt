-- ===== src/Runner/Conserved.antt =====
-- crates/workflow-runner/src/lib.rs: no command is lost or invented between the queue, the
-- batches and the counters.
use dryer.Base.{
  ℕ, zero, suc, ◌+◌, ◌%◌, ◌^◌, ◌≡◌, refl, ap, false, inl, inr, Option, some, List, [], ◌∷◌, ◌++◌,
  length, leb, ◌==◌, take, drop, length-append, length-take, length-drop, if_either, Result-cases,
  arith,
}
use dryer.Auditor.{AuditLimits}
use dryer.Daemon.{ControllerSessionStatus}
use dryer.Protocol.{CommandEnvelope}
use dryer.Runner.{RunnerState, faulted, throttled, WorkflowRunner, RunnerConfig, new_runner}
use dryer.Runner.Dispatch.{
  Limits, limits_of, schedule, target_tick, dispatch, dispatch_within, next_dispatch_batch,
  batch_count_of, target_horizon_of, heartbeat_lost, is_idle_now,
}
use dryer.Runner.Steps.{
  enqueue, enqueue_batch, appended, update_controller_status, commands_of, pre_flight, is_faulted,
  with_auditor, set_auditor, clear_auditor,
}

-- The u64 counters agree with the queue: what was enqueued is dispatched or waits.
abbrev pub Conserved : WorkflowRunner → Type 0
Conserved runner =
    runner.total_enqueued ≡ (runner.total_dispatched + length runner.job_queue) % 2 ^ 64

-- The operations of a runner, in any order, from a runner with an auditor or without.
pub data Reachable (config : RunnerConfig) : WorkflowRunner → Type 0 where
  fresh : Reachable config (new_runner config)
  fresh_audited : (limits : AuditLimits) → Reachable config (with_auditor config limits)
  auditor_set :
      {r : WorkflowRunner}
      → Reachable config r
      → (limits : AuditLimits) → Reachable config (set_auditor r limits)
  auditor_cleared : {r : WorkflowRunner} → Reachable config r → Reachable config (clear_auditor r)
  enqueued :
      {r : WorkflowRunner}
      → Reachable config r
      → (e : CommandEnvelope) → Reachable config ((enqueue r e).1)
  batch_enqueued :
      {r : WorkflowRunner}
      → Reachable config r
      → (es : List CommandEnvelope) → Reachable config ((enqueue_batch r es).1)
  updated :
      {r : WorkflowRunner}
      → Reachable config r
      → (status : ControllerSessionStatus) → Reachable config (update_controller_status r status)
  dispatched :
      {r : WorkflowRunner} → Reachable config r → Reachable config ((next_dispatch_batch r).1)

appended-Conserved :
    (r : WorkflowRunner) (es : List CommandEnvelope) → Conserved r → Conserved (appended r es)
appended-Conserved r es h = omega (arith, h, length-append r.job_queue es)

enqueue-Conserved :
    (r : WorkflowRunner) (e : CommandEnvelope) → Conserved r → Conserved ((enqueue r e).1)
unfolding enqueue
enqueue-Conserved r e h = elim (Result-cases (pre_flight r (e.command ∷ []))) [
  | inl (_, passed) ↦ rw (enqueue, passed) (appended-Conserved r (e ∷ []) h)
  | inr (_, refused) ↦ rw (enqueue, refused) h
]

enqueue_batch-Conserved :
    (r : WorkflowRunner) (es : List CommandEnvelope)
    → Conserved r
    → Conserved ((enqueue_batch r es).1)
unfolding enqueue_batch
enqueue_batch-Conserved r [] h = h
enqueue_batch-Conserved r (e ∷ es) h = elim (Result-cases (pre_flight r (commands_of (e ∷ es)))) [
  | inl (_, passed) ↦ rw (enqueue_batch, passed) (appended-Conserved r (e ∷ es) h)
  | inr (_, refused) ↦ rw (enqueue_batch, refused) h
]

pub length-schedule :
    (limits : Limits) (margin : ℕ) (last : Option ℕ) (es : List CommandEnvelope)
    → length ((schedule limits margin last es).0) ≡ length es
unfolding schedule
length-schedule limits margin last [] = refl
length-schedule limits margin last (e ∷ es) =
    ap suc (length-schedule limits margin (some (target_tick limits margin last e.execute_at)) es)

pub commands_of-schedule :
    (limits : Limits) (margin : ℕ) (last : Option ℕ) (es : List CommandEnvelope)
    → commands_of ((schedule limits margin last es).0) ≡ commands_of es
unfolding schedule
commands_of-schedule limits margin last [] = refl
commands_of-schedule limits margin last (e ∷ es) =
    ap (◌∷◌ e.command)
      (commands_of-schedule limits margin (some (target_tick limits margin last e.execute_at)) es)

-- A dispatch step changes the state only, or dispatches a batch that fits below the horizon.
pub step_cases :
    (P : List CommandEnvelope × WorkflowRunner → Type 0) (r : WorkflowRunner)
    → ((s : RunnerState) → P ([], record r { state = s }))
    → ((limits : Limits)
        → limits ≡ limits_of r
        → is_faulted r.state ≡ false
        → heartbeat_lost r.last_controller_status ≡ false
        → leb (target_horizon_of r limits) limits.fill ≡ false
        → P (dispatch r limits (batch_count_of r limits)))
    → P (next_dispatch_batch r)
unfolding next_dispatch_batch dispatch_within
step_cases P r nothing batch =
    if_either P (is_faulted r.state) (λ _. nothing r.state)
      (λ sound.
        if_either P (length r.job_queue == 0) (λ _. nothing (is_idle_now r))
          (λ _.
            if_either P (heartbeat_lost r.last_controller_status) (λ _. nothing faulted)
              (λ alive.
                if_either P (leb (target_horizon_of r (limits_of r)) (limits_of r).fill)
                  (λ _. nothing throttled)
                  (λ room.
                    if_either P (batch_count_of r (limits_of r) == 0) (λ _. nothing r.state)
                      (λ _. batch (limits_of r) refl sound alive room)))))

-- The commands that leave in a batch are the front of the queue, in order, and the rest of the
-- queue stays: no command is lost, invented, repeated or overtaken by a dispatch step.
pub next_dispatch_batch-keeps_order :
    (r : WorkflowRunner)
    → commands_of ((next_dispatch_batch r).0) ++ commands_of (((next_dispatch_batch r).1).job_queue)
      ≡ commands_of r.job_queue
next_dispatch_batch-keeps_order r =
    step_cases
      (λ (p : List CommandEnvelope × WorkflowRunner).
        commands_of p.0 ++ commands_of ((p.1).job_queue) ≡ commands_of r.job_queue)
      r (λ s. refl)
      (λ limits _ _ _ _.
        rw
          (commands_of-schedule limits r.config.schedule_lead_margin_us r.last_dispatched_tick
            (take (batch_count_of r limits) r.job_queue))
          (split (batch_count_of r limits) r.job_queue))
  where
    split :
        (n : ℕ) (es : List CommandEnvelope)
        → commands_of (take n es) ++ commands_of (drop n es) ≡ commands_of es
    split zero es = refl
    split (suc n) [] = refl
    split (suc n) (e ∷ es) = ap (◌∷◌ e.command) (split n es)

dispatch-Conserved : (r : WorkflowRunner) → Conserved r → Conserved ((next_dispatch_batch r).1)
dispatch-Conserved r h =
    step_cases (λ (p : List CommandEnvelope × WorkflowRunner). Conserved p.1) r (λ s. h)
      (λ limits _ _ _ _. omega (
        arith,
        h,
        length-schedule limits r.config.schedule_lead_margin_us r.last_dispatched_tick
            (take (batch_count_of r limits) r.job_queue),
        length-take (batch_count_of r limits) r.job_queue,
        length-drop (batch_count_of r limits) r.job_queue,
      ))

-- In every state that the operations reach, in any order, with auditors set, replaced and cleared
-- on the way, whatever commands are enqueued and whatever the controller's statuses say, the
-- counted enqueued commands are the counted dispatched ones and the waiting ones, modulo 2 ^ 64.
pub Reachable-Conserved :
    (config : RunnerConfig) {r : WorkflowRunner} → Reachable config r → Conserved r
unfolding update_controller_status
Reachable-Conserved config fresh = refl
Reachable-Conserved config (fresh_audited limits) = refl
Reachable-Conserved config (auditor_set before limits) = Reachable-Conserved config before
Reachable-Conserved config (auditor_cleared before) = Reachable-Conserved config before
Reachable-Conserved config (enqueued {r} before e) =
    enqueue-Conserved r e (Reachable-Conserved config before)
Reachable-Conserved config (batch_enqueued {r} before es) =
    enqueue_batch-Conserved r es (Reachable-Conserved config before)
Reachable-Conserved config (updated before status) = Reachable-Conserved config before
Reachable-Conserved config (dispatched {r} before) =
    dispatch-Conserved r (Reachable-Conserved config before)
