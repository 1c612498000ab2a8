-- ===== src/Protocol/Layout.antt =====
-- The byte layout of `dryer.control/v1` frames, stated with no reference to the codec's cursors:
-- what crates/control-protocol/src/lib.rs describes in its opening comment.
use dryer.Base.{ℕ, ◌<◌, ◌≤◌, ◌^◌, ◌≡◌, Bool, true, Option, none, some, List, [], ◌∷◌, ◌++◌, length}
use dryer.Base.Int.{IsI64, to_bits64}
use dryer.Base.Words.{to_le_bytes}
use dryer.Protocol.{
  Command, CommandEnvelope, QueueStatus, ClockResponse, Str, magic, protocol_version,
  max_string_len, tag_heartbeat, tag_set_heater_target, tag_home, tag_move,
}
use dryer.Protocol.Crc.{crc32c}
use dryer.Protocol.Encode.{flags_of, state_flags}

-- Everything that the checksum covers: version, type, sequence, length and payload.
abbrev pub covered : ℕ → ℕ → List ℕ → List ℕ
covered message_type sequence payload =
    protocol_version
    ∷ (message_type ∷ (to_le_bytes 4 sequence ++ (to_le_bytes 2 (length payload) ++ payload)))

abbrev pub frame_bytes : ℕ → ℕ → List ℕ → List ℕ
frame_bytes message_type sequence payload =
    magic
    ++ (covered message_type sequence payload
        ++ to_le_bytes 4 (crc32c (covered message_type sequence payload)))

abbrev pub string_bytes : Str → List ℕ
string_bytes value = length value ∷ value

abbrev pub schedule_bytes : Option ℕ → List ℕ
schedule_bytes none = []
schedule_bytes (some execute_at) = to_le_bytes 8 execute_at

abbrev pub command_bytes : Command → List ℕ
command_bytes Command.heartbeat = tag_heartbeat ∷ []
command_bytes (Command.set_heater_target heater target_milli_c) =
    tag_set_heater_target ∷ (string_bytes heater ++ to_le_bytes 8 (to_bits64 target_milli_c))
command_bytes (Command.home axis rate_um_s) =
    tag_home ∷ (string_bytes axis ++ to_le_bytes 8 rate_um_s)
command_bytes (Command.move axis distance_um rate_um_s) =
    tag_move
    ∷ (string_bytes axis ++ (to_le_bytes 8 (to_bits64 distance_um) ++ to_le_bytes 8 rate_um_s))

abbrev pub envelope_bytes : CommandEnvelope → List ℕ
envelope_bytes envelope =
    flags_of envelope.execute_at
    ∷ (schedule_bytes envelope.execute_at ++ command_bytes envelope.command)

abbrev pub queue_status_bytes : QueueStatus → List ℕ
queue_status_bytes status =
    0
    ∷ (to_le_bytes 2 status.capacity
        ++ (to_le_bytes 2 status.fill
            ++ (to_le_bytes 8 status.earliest_accepted
                ++ (to_le_bytes 8 status.latest_accepted ++ (state_flags status.underrun ∷ [])))))

abbrev pub clock_response_bytes : ClockResponse → List ℕ
clock_response_bytes response =
    0 ∷ (to_le_bytes 8 response.controller_receive ++ to_le_bytes 8 response.controller_send)

-- The values that the Rust types of a command can hold. A name is a `String`: its bytes pass
-- `str::from_utf8`.
module _ (is_utf8 : List ℕ → Bool) where
  abbrev pub CommandFits : Command → Type 0
  CommandFits Command.heartbeat = Unit {0}
  CommandFits (Command.set_heater_target heater target_milli_c) =
      (is_utf8 heater ≡ true) × IsI64 target_milli_c
  CommandFits (Command.home axis rate_um_s) = (is_utf8 axis ≡ true) × (rate_um_s < 2 ^ 64)
  CommandFits (Command.move axis distance_um rate_um_s) =
      (is_utf8 axis ≡ true) × IsI64 distance_um × (rate_um_s < 2 ^ 64)

abbrev pub ScheduleFits : Option ℕ → Type 0
ScheduleFits none = Unit {0}
ScheduleFits (some execute_at) = execute_at < 2 ^ 64

-- The name of a command, if it carries one.
abbrev pub name_of : Command → Str
name_of Command.heartbeat = []
name_of (Command.set_heater_target heater target_milli_c) = heater
name_of (Command.home axis rate_um_s) = axis
name_of (Command.move axis distance_um rate_um_s) = axis

-- The bound on names that the encoder checks.
abbrev pub NameFits : Command → Type 0
NameFits command = length (name_of command) ≤ max_string_len

pub record StatusFits (status : QueueStatus) : Type 0 where
  pub capacity_fits : status.capacity < 2 ^ 16
  pub fill_fits : status.fill < 2 ^ 16
  pub earliest_fits : status.earliest_accepted < 2 ^ 64
  pub latest_fits : status.latest_accepted < 2 ^ 64
