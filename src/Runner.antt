-- ===== src/Runner.antt =====
-- crates/workflow-runner/src/lib.rs: the configuration, the state and the statistics of the
-- streaming workflow runner. The job queue is a list, its front first.
pub mod Steps
pub mod Dispatch
pub mod Conserved
pub mod Batches
pub mod Delivery
mod Examples
use dryer.Base.{ℕ, Option, none, List, []}
use dryer.Auditor.{AuditLimits, AuditReport}
use dryer.Daemon.{ControllerSessionStatus}
use dryer.Protocol.{CommandEnvelope, Tick}

pub record RunnerConfig : Type 0 where
  pub target_horizon : ℕ
  pub min_threshold : ℕ
  pub max_batch_size : ℕ
  pub schedule_lead_margin_us : ℕ

abbrev pub default_config : RunnerConfig
default_config = record {
  target_horizon = 16;
  min_threshold = 4;
  max_batch_size = 8;
  schedule_lead_margin_us = 1_000;
}

pub data RunnerState : Type 0 where
  idle running throttled underrun_warning faulted completed : RunnerState

pub record RunnerStats : Type 0 where
  pub total_enqueued : ℕ
  pub total_dispatched : ℕ
  pub total_completed : ℕ
  pub pending_in_runner_queue : ℕ
  pub underrun_events : ℕ
  pub state : RunnerState

-- Of these, the operations return the first only.
pub data RunnerError : Type 0 where
  audit_failed : (report : AuditReport) → RunnerError
  controller_faulted : (message : List ℕ) → RunnerError
  heartbeat_timeout : RunnerError

pub record WorkflowRunner : Type 0 where
  pub config : RunnerConfig
  pub auditor : Option AuditLimits
  pub job_queue : List CommandEnvelope
  pub last_controller_status : Option ControllerSessionStatus
  pub total_enqueued : ℕ
  pub total_dispatched : ℕ
  pub total_completed : ℕ
  pub underrun_events : ℕ
  pub last_dispatched_tick : Option Tick
  pub state : RunnerState

abbrev pub new_runner : RunnerConfig → WorkflowRunner
new_runner config = record {
  config = config;
  auditor = none;
  job_queue = [];
  last_controller_status = none;
  total_enqueued = 0;
  total_dispatched = 0;
  total_completed = 0;
  underrun_events = 0;
  last_dispatched_tick = none;
  state = idle;
}
