-- ===== src/Daemon/Examples.antt =====
-- The daemon with one registered controller.
use dryer.Base.{
  ℕ, ◌+◌, ◌<◌, ◌≡◌, ◌≢◌, ◌⊎◌, ◌↔◌, refl, Bool, true, false, some, none, List, [], ◌∷◌, take,
  replicate, ok, arith,
}
use dryer.Base.Names.{same_bytes}
use dryer.Daemon.{
  ControllerDaemon, ControllerSession, register_controller, new_daemon, new_controller, faulted,
  update_queue_status, session_status, audit_heartbeats, record_heartbeat,
}
use dryer.Daemon.Heartbeats.{
  audit_heartbeats-Overdue, session_status-update_queue_status, Listed, Overdue,
}
use dryer.Protocol.{Str, QueueStatusFrame}
use dryer.Protocol.Encode.{
  encode_queue_status, queue_status_body, write_queue_status, write_header, write_checksum,
}
use dryer.Protocol.Writer.{write, write_u8}

abbrev name : Str
name = b'm' ∷ b'1' ∷ []

abbrev daemon : ControllerDaemon
daemon = (record_heartbeat (register_controller new_daemon name 1_000) name 5).1

abbrev session : ControllerSession
session = record (new_controller name 1_000) { last_seen_host_us = 5 }

abbrev frame : QueueStatusFrame
frame = record {
  sequence = 3;
  status = record {
    capacity = 32;
    fill = 4;
    earliest_accepted = 100;
    latest_accepted = 900;
    underrun = false;
  };
}

abbrev blank : List ℕ
blank = replicate 40 0

frame_length : (encode_queue_status frame blank).0 ≡ ok 36
unfolding encode_queue_status queue_status_body write_queue_status write_header write_checksum write
    write_u8
frame_length = refl

audit_heartbeats-Overdue_example :
    (Listed name ((audit_heartbeats daemon 2_000).0) ↔ Overdue daemon.sessions 2_000 name)
    × ((((audit_heartbeats daemon 2_000).0 ≡ []) × ((audit_heartbeats daemon 2_000).1 ≡ daemon))
        ⊎ (((audit_heartbeats daemon 2_000).0 ≢ [])
            × (((audit_heartbeats daemon 2_000).1).state ≡ faulted)))
audit_heartbeats-Overdue_example = audit_heartbeats-Overdue daemon 2_000 name

registered : dryer.Base.Names.lookup daemon.sessions name ≡ some session
unfolding register_controller record_heartbeat
registered = refl

session_status-update_queue_status_example :
    let (answer, daemon') =
      update_queue_status daemon name (take 36 (encode_queue_status frame blank).1) 7 in
    (answer ≡ ok frame.status)
    × (session_status daemon' name 7
        ≡ some (record {
          controller_id = name;
          heartbeat_timeout_us = 1_000;
          last_seen_host_us = 7;
          queue_capacity = 32;
          queue_fill = frame.status.fill;
          earliest_accepted_tick = frame.status.earliest_accepted;
          latest_accepted_tick = frame.status.latest_accepted;
          underrun = frame.status.underrun;
          heartbeat_ok = true;
        }))
    × ((other : Str)
        → same_bytes name other ≡ false
        → session_status daemon' other 7 ≡ session_status daemon other 7)
session_status-update_queue_status_example =
    session_status-update_queue_status daemon name session frame blank 36 7 registered (omega arith)
      (omega arith) frame_length
