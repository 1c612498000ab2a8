-- ===== src/Daemon/Heartbeats.antt =====
-- crates/controller-daemon/src/lib.rs: what the daemon's snapshots and audits say of the
-- controllers.
use dryer.Base.{
  ℕ, ◌+◌, ◌^◌, ◌<◌, ◌≡◌, ◌≢◌, ◌⊎◌, ◌↔◌, refl, true, false, some, List, [], ◌∷◌, ok, if_either, take,
  inl, inr, arith,
}
use dryer.Base.Names.{lookup, same_bytes, lookup-insert, lookup-insert_other}
use dryer.Daemon.{
  faulted, faulted_if_any, ControllerDaemon, ControllerSession, is_heartbeat_alive, status,
  store_status, update_queue_status, dead_of, audit_heartbeats, session_status,
}
use dryer.Protocol.{Str, QueueStatusFrame}
use dryer.Protocol.Decode.{decode_queue_status}
use dryer.Protocol.Encode.{encode_queue_status}
use dryer.Protocol.Layout.{StatusFits}
use dryer.Protocol.RoundTrip.{decode_queue_status-encode_queue_status}

-- A name of a list.
abbrev pub Listed : Str → List Str → Type 0
Listed id [] = ⊥
Listed id (k ∷ rest) = (id ≡ k) ⊎ Listed id rest

-- The name of a controller whose last sign of life is longer ago than its timeout. One that was
-- never seen is not overdue.
abbrev pub Overdue : List (Str × ControllerSession) → ℕ → Str → Type 0
Overdue [] now id = ⊥
Overdue ((k, s) ∷ rest) now id =
    ((id ≡ k) × (0 < s.last_seen_host_us) × (s.last_seen_host_us + s.heartbeat_timeout_us < now))
    ⊎ Overdue rest now id

overdue_iff :
    (s : ControllerSession) (now : ℕ)
    → (is_heartbeat_alive s now ≡ false)
      ↔ ((0 < s.last_seen_host_us) × (s.last_seen_host_us + s.heartbeat_timeout_us < now))
overdue_iff s now = ground arith

dead_of_iff :
    (sessions : List (Str × ControllerSession)) (now : ℕ) (id : Str)
    → Listed id (dead_of sessions now) ↔ Overdue sessions now id
unfolding dead_of
dead_of_iff [] now id = (λ h. h, λ h. h)
dead_of_iff ((k, s) ∷ rest) now id =
    let (there, back) = dead_of_iff rest now id in
    if_either (λ (dead : List Str). Listed id dead ↔ Overdue ((k, s) ∷ rest) now id)
      (is_heartbeat_alive s now)
      (λ alive. (
        λ h. inr (there h),
        λ h. elim h [
          | inl (_, seen, late) ↦ absurd (cc ((overdue_iff s now).1 (seen, late), alive))
          | inr later ↦ back later
        ],
      ))
      (λ dead. (
        λ h. elim h [
          | inl same ↦ let (seen, late) = (overdue_iff s now).0 dead in inl (same, seen, late)
          | inr later ↦ inr (there later)
        ],
        λ h. elim h [ inl (same, _, _) ↦ inl same | inr later ↦ inr (back later) ],
      ))

-- An audit names exactly the controllers whose heartbeat is overdue, and it faults the daemon
-- exactly when it names one; otherwise the daemon's state stays.
pub audit_heartbeats-Overdue :
    (daemon : ControllerDaemon) (now : ℕ) (id : Str)
    → (Listed id ((audit_heartbeats daemon now).0) ↔ Overdue daemon.sessions now id)
      × ((((audit_heartbeats daemon now).0 ≡ []) × ((audit_heartbeats daemon now).1 ≡ daemon))
          ⊎ (((audit_heartbeats daemon now).0 ≢ [])
              × (((audit_heartbeats daemon now).1).state ≡ faulted)))
unfolding audit_heartbeats
audit_heartbeats-Overdue daemon now id =
    (dead_of_iff daemon.sessions now id, states (dead_of daemon.sessions now))
  where
    states :
        (dead : List Str)
        → ((dead ≡ [])
            × (◌≡◌ {A = ControllerDaemon}
                (record daemon { state = faulted_if_any dead daemon.state })
                daemon))
          ⊎ ((dead ≢ []) × (faulted_if_any dead daemon.state ≡ faulted))
    states [] = inl (refl, refl)
    states (k ∷ rest) = inr ((λ e. cc), refl)

-- The status that a registered controller encodes is answered, and shows in the controller's snapshot
-- at the same host time, field by field, beside its registered name and timeout, that time as the
-- last sign of life, and a live heartbeat. The other controllers' snapshots stay.
pub session_status-update_queue_status :
    (daemon : ControllerDaemon) (id : Str) (session : ControllerSession) (frame : QueueStatusFrame)
    (output : List ℕ) (n now : ℕ)
    → lookup daemon.sessions id ≡ some session
    → frame.sequence < 2 ^ 32
    → StatusFits frame.status
    → (encode_queue_status frame output).0 ≡ ok n
    → let (answer, daemon') =
        update_queue_status daemon id (take n (encode_queue_status frame output).1) now in
      (answer ≡ ok frame.status)
      × (session_status daemon' id now
          ≡ some (record {
            controller_id = session.controller_id;
            heartbeat_timeout_us = session.heartbeat_timeout_us;
            last_seen_host_us = now;
            queue_capacity = frame.status.capacity;
            queue_fill = frame.status.fill;
            earliest_accepted_tick = frame.status.earliest_accepted;
            latest_accepted_tick = frame.status.latest_accepted;
            underrun = frame.status.underrun;
            heartbeat_ok = true;
          }))
      × ((other : Str)
          → same_bytes id other ≡ false
          → session_status daemon' other now ≡ session_status daemon other now)
unfolding update_queue_status store_status session_status status
session_status-update_queue_status daemon id session frame output n now registered numbered fits
      encoded =
    rw (update_queue_status, decoded, store_status, registered)
      (
        refl,
        rw (session_status, lookup-insert id updated daemon.sessions, snapshot) refl,
        λ other apart.
            rw (session_status, lookup-insert_other id other updated daemon.sessions apart) refl,
      )
  where
    updated : ControllerSession
    updated = record session { last_status = some frame.status; last_seen_host_us = now }

    alive : is_heartbeat_alive updated now ≡ true
    alive = ground arith

    snapshot : status updated now ≡ record {
      controller_id = session.controller_id;
      heartbeat_timeout_us = session.heartbeat_timeout_us;
      last_seen_host_us = now;
      queue_capacity = frame.status.capacity;
      queue_fill = frame.status.fill;
      earliest_accepted_tick = frame.status.earliest_accepted;
      latest_accepted_tick = frame.status.latest_accepted;
      underrun = frame.status.underrun;
      heartbeat_ok = true;
    }
    snapshot = rw alive refl

    decoded : decode_queue_status (take n (encode_queue_status frame output).1) ≡ ok frame
    decoded = decode_queue_status-encode_queue_status frame output n numbered fits encoded
