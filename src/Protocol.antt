-- ===== src/Protocol.antt =====
-- crates/control-protocol/src/lib.rs: the frame types, the constants and the two error types of
-- `dryer.control/v1`. The children are the codec and its laws, and they use this file.
pub mod Crc
pub mod Writer
pub mod Reader
pub mod Sizes
pub mod Encode
pub mod Payload
pub mod Decode
pub mod Emits
pub mod Layout
pub mod Encodes
pub mod Encoding
pub mod Consumes
pub mod Decoding
pub mod Frames
pub mod RoundTrip
mod Examples
use dryer.Base.{ℕ, ◌+◌, Bool, Option, List, [], ◌∷◌}
use dryer.Base.Int.{ℤ}

-- One microsecond of controller time, a u64.
abbrev pub Tick : Type 0
Tick = ℕ

-- A Rust `String`: the bytes of its UTF-8 form.
abbrev pub Str : Type 0
Str = List ℕ

abbrev pub magic : List ℕ
magic = b'D' ∷ b'R' ∷ []

abbrev pub protocol_version : ℕ
protocol_version = 1

abbrev pub command_message_type : ℕ
command_message_type = 1

abbrev pub queue_status_message_type : ℕ
queue_status_message_type = 2

abbrev pub clock_request_message_type : ℕ
clock_request_message_type = 3

abbrev pub clock_response_message_type : ℕ
clock_response_message_type = 4

abbrev pub header_len : ℕ
header_len = 10

abbrev pub checksum_len : ℕ
checksum_len = 4

abbrev pub max_string_len : ℕ
max_string_len = 63

abbrev pub max_payload_len : ℕ
max_payload_len = 128

abbrev pub max_frame_len : ℕ
max_frame_len = header_len + max_payload_len + checksum_len

abbrev pub queue_status_payload_len : ℕ
queue_status_payload_len = 22

abbrev pub queue_status_frame_len : ℕ
queue_status_frame_len = header_len + queue_status_payload_len + checksum_len

abbrev pub clock_request_payload_len : ℕ
clock_request_payload_len = 1

abbrev pub clock_response_payload_len : ℕ
clock_response_payload_len = 17

abbrev pub clock_request_frame_len : ℕ
clock_request_frame_len = header_len + clock_request_payload_len + checksum_len

abbrev pub clock_response_frame_len : ℕ
clock_response_frame_len = header_len + clock_response_payload_len + checksum_len

abbrev pub flag_execute_at : ℕ
flag_execute_at = 1

abbrev pub known_flags : ℕ
known_flags = flag_execute_at

abbrev pub queue_status_flag_underrun : ℕ
queue_status_flag_underrun = 1

abbrev pub tag_heartbeat : ℕ
tag_heartbeat = 0

abbrev pub tag_set_heater_target : ℕ
tag_set_heater_target = 1

abbrev pub tag_home : ℕ
tag_home = 2

abbrev pub tag_move : ℕ
tag_move = 3

-- The fields of each variant in the source's order.
pub data Command : Type 0 where
  heartbeat : Command
  set_heater_target : (heater : Str) (target_milli_c : ℤ) → Command
  home : (axis : Str) (rate_um_s : ℕ) → Command
  move : (axis : Str) (distance_um : ℤ) (rate_um_s : ℕ) → Command

pub record CommandEnvelope : Type 0 where
  pub execute_at : Option Tick
  pub command : Command

pub record CommandFrame : Type 0 where
  pub sequence : ℕ
  pub envelope : CommandEnvelope

pub record QueueStatus : Type 0 where
  pub capacity : ℕ
  pub fill : ℕ
  pub earliest_accepted : Tick
  pub latest_accepted : Tick
  pub underrun : Bool

pub record QueueStatusFrame : Type 0 where
  pub sequence : ℕ
  pub status : QueueStatus

pub record ClockRequestFrame : Type 0 where
  pub sequence : ℕ

pub record ClockResponse : Type 0 where
  pub controller_receive : Tick
  pub controller_send : Tick

pub record ClockResponseFrame : Type 0 where
  pub sequence : ℕ
  pub response : ClockResponse

pub data EncodeError : Type 0 where
  string_too_long : (length maximum : ℕ) → EncodeError
  payload_too_long : (length maximum : ℕ) → EncodeError
  buffer_too_small : (needed available : ℕ) → EncodeError

pub data DecodeError : Type 0 where
  truncated : (needed available : ℕ) → DecodeError
  invalid_magic : (found_0 found_1 : ℕ) → DecodeError
  unsupported_version : (version : ℕ) → DecodeError
  unsupported_message_type : (message_type : ℕ) → DecodeError
  payload_too_long : (length maximum : ℕ) → DecodeError
  trailing_frame_bytes : (count : ℕ) → DecodeError
  checksum_mismatch : (encoded computed : ℕ) → DecodeError
  invalid_payload_length : (expected actual : ℕ) → DecodeError
  invalid_flags : (flags : ℕ) → DecodeError
  invalid_state_flags : (flags : ℕ) → DecodeError
  unknown_command_tag : (tag : ℕ) → DecodeError
  string_too_long : (length maximum : ℕ) → DecodeError
  invalid_utf8 : DecodeError
  trailing_payload_bytes : (count : ℕ) → DecodeError
