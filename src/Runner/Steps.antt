-- ===== src/Runner/Steps.antt =====
-- crates/workflow-runner/src/lib.rs: enqueuing, and the update with a controller's status.
use dryer.Base.{
  ℕ, ◌+◌, ◌-◌, ◌%◌, ◌^◌, ◌==◌, Bool, true, false, not, ◌&&◌, none, some, List, [], ◌∷◌, ◌++◌,
  Result, ok, err, length, ltb, if◌then◌else◌,
}
use dryer.Auditor.{AuditLimits, audit}
use dryer.Daemon.{ControllerSessionStatus}
use dryer.Protocol.{CommandEnvelope, Command}
use dryer.Runner.{
  RunnerConfig, RunnerState, idle, running, throttled, underrun_warning, faulted, completed,
  RunnerStats, RunnerError, audit_failed, WorkflowRunner, new_runner,
}

abbrev pub set_auditor : WorkflowRunner → AuditLimits → WorkflowRunner
set_auditor runner limits = record runner { auditor = some limits }

abbrev pub with_auditor : RunnerConfig → AuditLimits → WorkflowRunner
with_auditor config limits = set_auditor (new_runner config) limits

abbrev pub clear_auditor : WorkflowRunner → WorkflowRunner
clear_auditor runner = record runner { auditor = none }

abbrev pub is_faulted : RunnerState → Bool
is_faulted faulted = true
is_faulted _ = false

abbrev pub is_underrun_warning : RunnerState → Bool
is_underrun_warning underrun_warning = true
is_underrun_warning _ = false

abbrev pub is_throttled : RunnerState → Bool
is_throttled throttled = true
is_throttled _ = false

abbrev pub is_completed : RunnerState → Bool
is_completed completed = true
is_completed _ = false

abbrev pub is_empty : {A : Type 0} → List A → Bool
is_empty [] = true
is_empty (x ∷ xs) = false

abbrev pub stats : WorkflowRunner → RunnerStats
stats runner = record {
  total_enqueued = runner.total_enqueued;
  total_dispatched = runner.total_dispatched;
  total_completed = runner.total_completed;
  pending_in_runner_queue = length runner.job_queue;
  underrun_events = runner.underrun_events;
  state = runner.state;
}

-- The state behind an enqueued command.
abbrev pub woken : RunnerState → RunnerState
woken idle = running
woken completed = running
woken running = running
woken throttled = throttled
woken underrun_warning = underrun_warning
woken faulted = faulted

-- The audit of commands that are about to be enqueued.
unfoldable pub pre_flight : WorkflowRunner → List Command → Result RunnerError (Unit {0})
pre_flight runner commands = elim runner.auditor [
  | none ↦ ok tt
  | some limits ↦
      let report = audit limits commands in
      if report.passed then ok tt else err (audit_failed report)
]

abbrev pub appended : WorkflowRunner → List CommandEnvelope → WorkflowRunner
appended runner items = record runner {
  job_queue = runner.job_queue ++ items;
  total_enqueued = (runner.total_enqueued + length items) % 2 ^ 64;
  state = woken runner.state;
}

unfoldable pub enqueue :
    WorkflowRunner → CommandEnvelope → Result RunnerError (Unit {0}) × WorkflowRunner
enqueue runner envelope = elim (pre_flight runner (envelope.command ∷ [])) [
  | err e ↦ (err e, runner)
  | ok _ ↦ (ok tt, appended runner (envelope ∷ []))
]

abbrev pub commands_of : List CommandEnvelope → List Command
commands_of [] = []
commands_of (e ∷ es) = e.command ∷ commands_of es

unfoldable pub enqueue_batch :
    WorkflowRunner → List CommandEnvelope → Result RunnerError ℕ × WorkflowRunner
enqueue_batch runner items =
    if is_empty items then (ok 0, runner) else elim (pre_flight runner (commands_of items)) [
      | err e ↦ (err e, runner)
      | ok _ ↦ (ok (length items), appended runner items)
    ]

-- The first two branches of `update_controller_status`, on the state.
abbrev pub alarmed : RunnerState → ControllerSessionStatus → RunnerState
alarmed state status =
    if not status.heartbeat_ok
    then faulted
    else if status.underrun && not (is_faulted state)
    then underrun_warning
    else state

abbrev pub underruns : ℕ → ControllerSessionStatus → ℕ
underruns events status =
    if status.heartbeat_ok && status.underrun then (events + 1) % 2 ^ 64 else events

abbrev pub finished : WorkflowRunner → RunnerState → ControllerSessionStatus → Bool
finished runner state status =
    is_empty runner.job_queue
    && (status.queue_fill == 0)
    && (runner.total_dispatched == runner.total_enqueued)
    && ltb 0 runner.total_enqueued
    && not (is_faulted state)
    && not (is_underrun_warning state)

unfoldable pub update_controller_status : WorkflowRunner → ControllerSessionStatus → WorkflowRunner
update_controller_status runner status =
    let state = alarmed runner.state status in
    record runner {
      underrun_events = underruns runner.underrun_events status;
      total_completed = runner.total_dispatched - status.queue_fill;
      state =
          if finished runner state status
          then completed
          else if is_throttled state && ltb status.queue_fill runner.config.target_horizon
          then running
          else state;
      last_controller_status = some status;
    }
