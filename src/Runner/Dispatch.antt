-- ===== src/Runner/Dispatch.antt =====
-- crates/workflow-runner/src/lib.rs: `next_dispatch_batch` and `dispatch_to_client`.
use dryer.Base.{
  ℕ, ◌+◌, ◌-◌, ◌%◌, ◌^◌, ◌==◌, Bool, false, not, ◌&&◌, ◌||◌, Option, none, some, List, [], ◌∷◌,
  Result, ok, err, length, ltb, leb, min, max, take, drop, if◌then◌else◌,
}
use dryer.Base.Words.{saturating_add}
use dryer.Client.{SendFrame, SendReceipt, SendError, CommandClient}
use dryer.Client.Commands.{send, send_scheduled}
use dryer.Daemon.{ControllerSessionStatus}
use dryer.Protocol.{CommandEnvelope, Tick}
use dryer.Runner.{RunnerState, idle, running, throttled, faulted, completed, WorkflowRunner}
use dryer.Runner.Steps.{is_faulted, is_underrun_warning, is_throttled}

-- Capacity, fill, and the earliest and the latest accepted tick.
pub record Limits : Type 0 where
  pub capacity : ℕ
  pub fill : ℕ
  pub earliest_accepted : Tick
  pub latest_accepted : Tick

abbrev pub limits_of : WorkflowRunner → Limits
limits_of runner = elim runner.last_controller_status [
  | none ↦ record {
    capacity = runner.config.target_horizon;
    fill = 0;
    earliest_accepted = 0;
    latest_accepted = 0;
  }
  | some status ↦ record {
    capacity = status.queue_capacity;
    fill = status.queue_fill;
    earliest_accepted = status.earliest_accepted_tick;
    latest_accepted = status.latest_accepted_tick;
  }
]

abbrev pub heartbeat_lost : Option ControllerSessionStatus → Bool
heartbeat_lost none = false
heartbeat_lost (some status) = not status.heartbeat_ok

-- `if let Some(last) = .. { t = t.max(last.saturating_add(margin)) }`
abbrev pub behind_last : ℕ → Option Tick → Tick → Tick
behind_last margin none t = t
behind_last margin (some last) t = max t (saturating_add last margin)

unfoldable pub target_tick : Limits → ℕ → Option Tick → Option Tick → Tick
target_tick limits margin last none = behind_last margin last limits.earliest_accepted
target_tick limits margin last (some specified) =
    let t = behind_last margin last (max specified limits.earliest_accepted) in
    if ltb 0 limits.latest_accepted && ltb limits.latest_accepted t
    then limits.latest_accepted
    else t

abbrev pub scheduled : CommandEnvelope → Tick → CommandEnvelope
scheduled envelope tick = record envelope { execute_at = some tick }

-- The loop over the batch: the envelopes, each with its tick, and the last of the ticks.
unfoldable pub schedule :
    Limits → ℕ → Option Tick → List CommandEnvelope → List CommandEnvelope × Option Tick
schedule limits margin last [] = ([], last)
schedule limits margin last (e ∷ es) =
    let tick = target_tick limits margin last e.execute_at in
    let (batch, last') = schedule limits margin (some tick) es in (scheduled e tick ∷ batch, last')

abbrev pub is_idle_now : WorkflowRunner → RunnerState
is_idle_now runner =
    if (runner.total_completed == runner.total_dispatched) && ltb 0 runner.total_dispatched
    then completed
    else if not (is_faulted runner.state) && not (is_underrun_warning runner.state)
    then idle
    else runner.state

abbrev pub state_behind : RunnerState → Bool → RunnerState
state_behind state below =
    if (is_throttled state && below) || (not (is_underrun_warning state) && not (is_faulted state))
    then running
    else state

abbrev pub target_horizon_of : WorkflowRunner → Limits → ℕ
target_horizon_of runner limits = min runner.config.target_horizon limits.capacity

abbrev pub batch_count_of : WorkflowRunner → Limits → ℕ
batch_count_of runner limits =
    min (min (target_horizon_of runner limits - limits.fill) runner.config.max_batch_size)
      (length runner.job_queue)

-- The batch of `batch_count` envelopes from the front of the queue.
abbrev pub dispatch : WorkflowRunner → Limits → ℕ → List CommandEnvelope × WorkflowRunner
dispatch runner limits batch_count =
    let (batch, last) =
      schedule limits runner.config.schedule_lead_margin_us runner.last_dispatched_tick
        (take batch_count runner.job_queue) in
    (
      batch,
      record runner {
        job_queue = drop batch_count runner.job_queue;
        last_dispatched_tick = last;
        total_dispatched = (runner.total_dispatched + length batch) % 2 ^ 64;
        state = state_behind runner.state (ltb limits.fill (target_horizon_of runner limits));
      },
    )

-- The part of `next_dispatch_batch` behind the limits.
unfoldable pub dispatch_within : WorkflowRunner → Limits → List CommandEnvelope × WorkflowRunner
dispatch_within runner limits =
    if leb (target_horizon_of runner limits) limits.fill
    then ([], record runner { state = throttled })
    else if batch_count_of runner limits == 0
    then ([], runner)
    else dispatch runner limits (batch_count_of runner limits)

unfoldable pub next_dispatch_batch : WorkflowRunner → List CommandEnvelope × WorkflowRunner
next_dispatch_batch runner =
    if is_faulted runner.state
    then ([], runner)
    else if length runner.job_queue == 0
    then ([], record runner { state = is_idle_now runner })
    else if heartbeat_lost runner.last_controller_status
    then ([], record runner { state = faulted })
    else dispatch_within runner (limits_of runner)

module _ {S E : Type 0} (send_frame : SendFrame S E) where
  abbrev pub send_envelope :
      CommandClient S → CommandEnvelope → Result (SendError E) SendReceipt × CommandClient S
  send_envelope client envelope = elim envelope.execute_at [
    | none ↦ send send_frame client envelope.command
    | some tick ↦ send_scheduled send_frame client tick envelope.command
  ]

  -- The loop over the batch stops at the first error.
  unfoldable pub send_all :
      CommandClient S
      → List CommandEnvelope
      → Result (SendError E) (List SendReceipt) × CommandClient S
  send_all client [] = (ok [], client)
  send_all client (e ∷ es) =
      let (sent, client') = send_envelope client e in
      let (rest, client'') = send_all client' es in
      elim sent [
        | err problem ↦ (err problem, client')
        | ok receipt ↦ elim rest [
          | err problem ↦ (err problem, client'')
          | ok receipts ↦ (ok (receipt ∷ receipts), client'')
        ]
      ]

  unfoldable pub dispatch_to_client :
      WorkflowRunner
      → CommandClient S
      → Result (SendError E) (List SendReceipt) × WorkflowRunner × CommandClient S
  dispatch_to_client runner client =
      let (batch, runner') = next_dispatch_batch runner in
      let (receipts, client') = send_all client batch in (receipts, runner', client')
