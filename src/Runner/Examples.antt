-- ===== src/Runner/Examples.antt =====
-- The runner with a queue of three commands and a controller that takes two more.
use dryer.Base.{
  ℕ, ◌+◌, ◌%◌, ◌^◌, ◌≤◌, ◌<◌, ◌↔◌, ◌≡◌, refl, true, false, some, none, List, [], ◌∷◌, ◌++◌, length,
  Option,
}
use dryer.Daemon.{ControllerSessionStatus}
use dryer.Base.{ok}
use dryer.Client.{SendFrame, SendReceipt, CommandClient}
use dryer.Client.Commands.{with_initial_sequence, send_inner}
use dryer.Protocol.Encode.{
  encode_command, command_body, write_header, write_checksum, write_schedule, encode_command_body,
  encode_payload,
}
use dryer.Protocol.Sizes.{encoded_payload_len, command_len}
use dryer.Protocol.Writer.{write, write_u8}
use dryer.Runner.Delivery.{Numbered, dispatch_to_client-Numbered}
use dryer.Runner.Dispatch.{dispatch_to_client, send_all}
use dryer.Protocol.{CommandEnvelope, heartbeat, move}
use dryer.Auditor.{AuditLimits, audit, audit_from, check_command}
use dryer.Base.Int.{pos, negsuc, ◌+ℤ◌}
use dryer.Runner.{WorkflowRunner, new_runner, default_config}
use dryer.Runner.Batches.{next_dispatch_batch-fits, next_dispatch_batch-Ready, Room, Ready}
use dryer.Runner.Conserved.{
  fresh_audited, batch_enqueued, updated, dispatched, Reachable-Conserved,
  next_dispatch_batch-keeps_order,
}
use dryer.Runner.Dispatch.{next_dispatch_batch, dispatch_within, schedule, target_tick}
use dryer.Runner.Steps.{
  commands_of, enqueue_batch, update_controller_status, pre_flight, with_auditor,
}

abbrev status : ControllerSessionStatus
status = record {
  controller_id = b'm' ∷ [];
  heartbeat_timeout_us = 1_000;
  last_seen_host_us = 5;
  queue_capacity = 32;
  queue_fill = 14;
  earliest_accepted_tick = 100;
  latest_accepted_tick = 9_000;
  underrun = false;
  heartbeat_ok = true;
}

abbrev lost : ControllerSessionStatus
lost = record status { heartbeat_ok = false }

abbrev beat : Option ℕ → CommandEnvelope
beat at = record { execute_at = at; command = heartbeat }

abbrev queue : List CommandEnvelope
queue = beat (some 50) ∷ beat none ∷ beat (some 8_000) ∷ []

abbrev waiting : WorkflowRunner
waiting = update_controller_status (enqueue_batch (new_runner default_config) queue).1 status

abbrev faulty : WorkflowRunner
faulty = update_controller_status waiting lost

two_dispatched : (next_dispatch_batch waiting).0 ≡ beat (some 100) ∷ beat (some 1_100) ∷ []
unfolding next_dispatch_batch dispatch_within schedule target_tick update_controller_status
    enqueue_batch pre_flight
two_dispatched = refl

abbrev limits : AuditLimits
limits = record {
  axes = ((b'x' ∷ []), record { min_um = negsuc 99; max_um = pos 200 }) ∷ [];
  max_feed_rate_um_s = 500;
  heater_ceilings_milli_c = [];
}

abbrev far : CommandEnvelope
far = record { execute_at = none; command = move (b'x' ∷ []) (pos 300) 500 }

-- A runner whose auditor refuses one batch and passes the next.
abbrev audited : WorkflowRunner
audited =
    let refused = (enqueue_batch (with_auditor default_config limits) (far ∷ queue)).1 in
    (next_dispatch_batch (update_controller_status (enqueue_batch refused queue).1 status)).1

audited_refuses :
    (enqueue_batch (with_auditor default_config limits) (far ∷ queue)).1
    ≡ with_auditor default_config limits
unfolding enqueue_batch pre_flight audit audit_from check_command ◌+ℤ◌
audited_refuses = refl

Reachable-Conserved_example :
    audited.total_enqueued ≡ (audited.total_dispatched + length audited.job_queue) % 2 ^ 64
Reachable-Conserved_example = Reachable-Conserved default_config {r = audited} (
    dispatched
      (updated (batch_enqueued (batch_enqueued (fresh_audited limits) (far ∷ queue)) queue) status))

next_dispatch_batch-keeps_order_example :
    commands_of ((next_dispatch_batch waiting).0)
      ++ commands_of (((next_dispatch_batch waiting).1).job_queue)
    ≡ commands_of waiting.job_queue
next_dispatch_batch-keeps_order_example = next_dispatch_batch-keeps_order waiting

next_dispatch_batch-fits_example :
    let sent = length ((next_dispatch_batch waiting).0) in
    (sent ≤ waiting.config.max_batch_size)
    × (sent ≤ length waiting.job_queue)
    × Room waiting.config waiting.last_controller_status sent
next_dispatch_batch-fits_example = next_dispatch_batch-fits waiting

next_dispatch_batch-Ready_example : (0 < length ((next_dispatch_batch waiting).0)) ↔ Ready waiting
next_dispatch_batch-Ready_example = next_dispatch_batch-Ready waiting

lost_dispatches_nothing : (next_dispatch_batch faulty).0 ≡ []
unfolding next_dispatch_batch update_controller_status enqueue_batch pre_flight
lost_dispatches_nothing = refl

-- A command without a tick of its own is not held to the latest accepted tick.
unclamped :
    (next_dispatch_batch
      (record waiting { last_dispatched_tick = some 8_500; job_queue = beat none ∷ [] })).0
    ≡ beat (some 9_500) ∷ []
unfolding next_dispatch_batch dispatch_within schedule target_tick update_controller_status
    enqueue_batch pre_flight
unclamped = refl

-- A sink that counts its frames.
abbrev counting : SendFrame ℕ ℕ
counting count frame = (ok tt, count + 1)

abbrev client : CommandClient ℕ
client = with_initial_sequence 0 0xffff_ffff

abbrev receipts : List SendReceipt
receipts =
    record { sequence = 0xffff_ffff; frame_len = 24 } ∷ record { sequence = 0; frame_len = 24 } ∷ []

delivered : (dispatch_to_client counting waiting client).0 ≡ ok receipts
unfolding dispatch_to_client send_all send_inner next_dispatch_batch dispatch_within schedule
    target_tick update_controller_status enqueue_batch pre_flight encode_command command_body
    write_header write_checksum write_schedule encode_command_body encode_payload
    encoded_payload_len command_len write write_u8
delivered = refl

dispatch_to_client-Numbered_example :
    Numbered 0xffff_ffff receipts × (2 ≡ length ((next_dispatch_batch waiting).0))
dispatch_to_client-Numbered_example =
    dispatch_to_client-Numbered counting waiting client receipts delivered
