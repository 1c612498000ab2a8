-- ===== src/Daemon.antt =====
-- crates/controller-daemon/src/lib.rs: the controller sessions, their heartbeats and the daemon.
pub mod Heartbeats
mod Examples
use dryer.Base.{
  ℕ, ◌-◌, ◌==◌, Bool, true, false, Option, none, some, List, [], ◌∷◌, Result, ok, err, leb, map,
  if◌then◌else◌,
}
use dryer.Base.Int.{pos}
use dryer.Base.Names.{lookup, insert}
use dryer.Client.{MultiControllerClockSync}
use dryer.Client.Cluster.{new_cluster, add_controller}
use dryer.Protocol.{Str, QueueStatus, DecodeError}
use dryer.Protocol.Decode.{decode_queue_status}

pub data DaemonState : Type 0 where
  uninitialized connecting connected running faulted disconnected : DaemonState

pub record ControllerSessionStatus : Type 0 where
  pub controller_id : Str
  pub heartbeat_timeout_us : ℕ
  pub last_seen_host_us : ℕ
  pub queue_capacity : ℕ
  pub queue_fill : ℕ
  pub earliest_accepted_tick : ℕ
  pub latest_accepted_tick : ℕ
  pub underrun : Bool
  pub heartbeat_ok : Bool

pub record ControllerSession : Type 0 where
  pub controller_id : Str
  pub heartbeat_timeout_us : ℕ
  pub last_seen_host_us : ℕ
  pub last_status : Option QueueStatus

pub record ControllerDaemon : Type 0 where
  pub state : DaemonState
  pub cluster_sync : MultiControllerClockSync
  pub sessions : List (Str × ControllerSession)

abbrev pub new_controller : Str → ℕ → ControllerSession
new_controller controller_id heartbeat_timeout_us = record {
  controller_id = controller_id;
  heartbeat_timeout_us = heartbeat_timeout_us;
  last_seen_host_us = 0;
  last_status = none;
}

abbrev pub seen_at : ControllerSession → ℕ → ControllerSession
seen_at session current_host_us = record session { last_seen_host_us = current_host_us }

abbrev pub is_heartbeat_alive : ControllerSession → ℕ → Bool
is_heartbeat_alive session current_host_us =
    if session.last_seen_host_us == 0
    then true
    else leb (current_host_us - session.last_seen_host_us) session.heartbeat_timeout_us

abbrev pub no_status : QueueStatus
no_status = record {
  capacity = 0;
  fill = 0;
  earliest_accepted = 0;
  latest_accepted = 0;
  underrun = false;
}

abbrev pub last_status_of : ControllerSession → QueueStatus
last_status_of session = elim session.last_status [ none ↦ no_status | some status ↦ status ]

unfoldable pub status : ControllerSession → ℕ → ControllerSessionStatus
status session current_host_us =
    let last = last_status_of session in
    record {
      controller_id = session.controller_id;
      heartbeat_timeout_us = session.heartbeat_timeout_us;
      last_seen_host_us = session.last_seen_host_us;
      queue_capacity = last.capacity;
      queue_fill = last.fill;
      earliest_accepted_tick = last.earliest_accepted;
      latest_accepted_tick = last.latest_accepted;
      underrun = last.underrun;
      heartbeat_ok = is_heartbeat_alive session current_host_us;
    }

abbrev pub new_daemon : ControllerDaemon
new_daemon = record {
  state = uninitialized;
  cluster_sync = new_cluster (pos 0) 100_000;
  sessions = [];
}

abbrev when_registered : DaemonState → DaemonState
when_registered uninitialized = connected
when_registered connecting = connecting
when_registered connected = connected
when_registered running = running
when_registered faulted = faulted
when_registered disconnected = disconnected

-- The cluster's answer is dropped, as by the source's `let _ =`.
unfoldable pub register_controller : ControllerDaemon → Str → ℕ → ControllerDaemon
register_controller daemon id heartbeat_timeout_us =
    let (_, cluster_sync) = add_controller daemon.cluster_sync id in
    record {
      state = when_registered daemon.state;
      cluster_sync = cluster_sync;
      sessions = insert id (new_controller id heartbeat_timeout_us) daemon.sessions;
    }

unfoldable pub record_heartbeat : ControllerDaemon → Str → ℕ → Bool × ControllerDaemon
record_heartbeat daemon id current_host_us = elim (lookup daemon.sessions id) [
  | none ↦ (false, daemon)
  | some session ↦ (
    true,
    record daemon { sessions = insert id (seen_at session current_host_us) daemon.sessions },
  )
]

unfoldable pub store_status : ControllerDaemon → Str → QueueStatus → ℕ → ControllerDaemon
store_status daemon id status current_host_us = elim (lookup daemon.sessions id) [
  | none ↦ daemon
  | some session ↦
      let session' = record session { last_status = some status } in
      record daemon { sessions = insert id (seen_at session' current_host_us) daemon.sessions }
]

unfoldable pub update_queue_status :
    ControllerDaemon → Str → List ℕ → ℕ → Result DecodeError QueueStatus × ControllerDaemon
update_queue_status daemon id status_frame current_host_us =
    elim (decode_queue_status status_frame) [
      | err e ↦ (err e, daemon)
      | ok frame ↦ (ok frame.status, store_status daemon id frame.status current_host_us)
    ]

unfoldable pub dead_of : List (Str × ControllerSession) → ℕ → List Str
dead_of [] current_host_us = []
dead_of ((id, session) ∷ rest) current_host_us =
    let later = dead_of rest current_host_us in
    if is_heartbeat_alive session current_host_us then later else id ∷ later

abbrev faulted_if_any : List Str → DaemonState → DaemonState
faulted_if_any [] state = state
faulted_if_any (id ∷ rest) state = faulted

unfoldable pub audit_heartbeats : ControllerDaemon → ℕ → List Str × ControllerDaemon
audit_heartbeats daemon current_host_us =
    let dead = dead_of daemon.sessions current_host_us in
    (dead, record daemon { state = faulted_if_any dead daemon.state })

abbrev pub active_controller_ids : ControllerDaemon → List Str
active_controller_ids daemon = map (λ entry. entry.0) daemon.sessions

unfoldable pub session_status : ControllerDaemon → Str → ℕ → Option ControllerSessionStatus
session_status daemon id current_host_us = elim (lookup daemon.sessions id) [
  | none ↦ none
  | some session ↦ some (status session current_host_us)
]

abbrev pub daemon_status_summary : ControllerDaemon → ℕ → List ControllerSessionStatus
daemon_status_summary daemon current_host_us =
    map (λ entry. status (entry.1) current_host_us) daemon.sessions
