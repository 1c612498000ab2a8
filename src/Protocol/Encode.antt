-- ===== src/Protocol/Encode.antt =====
-- crates/control-protocol/src/lib.rs, the encoders. Each takes the caller's buffer and returns
-- its result with the buffer as it leaves it.
use dryer.Base.{
  ℕ, ◌+◌, Bool, Option, none, some, List, Result, ok, err, ok_or, length, slice, ltb, if◌then◌else◌,
}
use dryer.Base.Int.{to_bits64}
use dryer.Base.Words.{to_le_bytes}
use dryer.Protocol.{
  Command, CommandEnvelope, CommandFrame, QueueStatus, QueueStatusFrame, ClockRequestFrame,
  ClockResponse, ClockResponseFrame, EncodeError, magic, protocol_version, command_message_type,
  queue_status_message_type, clock_request_message_type, clock_response_message_type, header_len,
  checksum_len, max_payload_len, queue_status_payload_len, queue_status_frame_len,
  clock_request_payload_len, clock_request_frame_len, clock_response_payload_len,
  clock_response_frame_len, flag_execute_at, queue_status_flag_underrun, tag_heartbeat,
  tag_set_heater_target, tag_home, tag_move,
}
use dryer.Protocol.Crc.{crc32c}
use dryer.Protocol.Sizes.{encoded_payload_len}
use dryer.Protocol.Writer.{
  Writer, Write, ◌>>=◌, ◌>>◌, write, write_u8, write_string, position, buffer, lift, new,
}

-- The five writes with which every encoder begins.
unfoldable pub write_header : ℕ → ℕ → ℕ → Write (Unit {0})
write_header message_type sequence payload_len = do
  write magic
  write_u8 protocol_version
  write_u8 message_type
  write (to_le_bytes 4 sequence)
  write (to_le_bytes 2 payload_len)

-- The steps with which every encoder ends: the checksum of all that follows the magic bytes.
unfoldable pub write_checksum : ℕ → ℕ → Write ℕ
write_checksum needed available = do
  payload_end ← position
  bytes ← buffer
  checksum_input ←
      lift (ok_or (slice bytes 2 payload_end) (EncodeError.buffer_too_small needed available))
  write (to_le_bytes 4 (crc32c checksum_input))
  position

abbrev pub flags_of : Option ℕ → ℕ
flags_of none = 0
flags_of (some t) = flag_execute_at

unfoldable pub write_schedule : Option ℕ → Write (Unit {0})
write_schedule none w = (ok tt, w)
write_schedule (some execute_at) w = write (to_le_bytes 8 execute_at) w

unfoldable pub encode_command_body : Command → Write (Unit {0})
encode_command_body Command.heartbeat = write_u8 tag_heartbeat
encode_command_body (Command.set_heater_target heater target_milli_c) = do
  write_u8 tag_set_heater_target
  write_string heater
  write (to_le_bytes 8 (to_bits64 target_milli_c))
encode_command_body (Command.home axis rate_um_s) = do
  write_u8 tag_home
  write_string axis
  write (to_le_bytes 8 rate_um_s)
encode_command_body (Command.move axis distance_um rate_um_s) = do
  write_u8 tag_move
  write_string axis
  write (to_le_bytes 8 (to_bits64 distance_um))
  write (to_le_bytes 8 rate_um_s)

unfoldable pub encode_payload : CommandEnvelope → Write (Unit {0})
encode_payload envelope = do
  write_u8 (flags_of envelope.execute_at)
  write_schedule envelope.execute_at
  encode_command_body envelope.command

-- The result, and the buffer that the writer gives back.
abbrev pub finish : Result EncodeError ℕ × Writer → Result EncodeError ℕ × List ℕ
finish (r, w) = (r, w.output)

unfoldable pub command_body : CommandFrame → ℕ → ℕ → Write ℕ
command_body frame payload_len frame_len = do
  write_header command_message_type frame.sequence payload_len
  encode_payload frame.envelope
  write_checksum frame_len frame_len

unfoldable pub encode_command : CommandFrame → List ℕ → Result EncodeError ℕ × List ℕ
encode_command frame output = elim (encoded_payload_len frame.envelope) [
  | err e ↦ (err e, output)
  | ok payload_len ↦
      let frame_len = header_len + payload_len + checksum_len in
      if ltb max_payload_len payload_len
      then (err (EncodeError.payload_too_long payload_len max_payload_len), output)
      else if ltb (length output) frame_len
      then (err (EncodeError.buffer_too_small frame_len (length output)), output)
      else finish (command_body frame payload_len frame_len (new output))
]

abbrev pub state_flags : Bool → ℕ
state_flags underrun = if underrun then queue_status_flag_underrun else 0

unfoldable pub write_queue_status : QueueStatus → Write (Unit {0})
write_queue_status status = do
  write_u8 0
  write (to_le_bytes 2 status.capacity)
  write (to_le_bytes 2 status.fill)
  write (to_le_bytes 8 status.earliest_accepted)
  write (to_le_bytes 8 status.latest_accepted)
  write_u8 (state_flags status.underrun)

unfoldable pub queue_status_body : QueueStatusFrame → Write ℕ
queue_status_body frame = do
  write_header queue_status_message_type frame.sequence queue_status_payload_len
  write_queue_status frame.status
  write_checksum queue_status_frame_len queue_status_frame_len

unfoldable pub encode_queue_status : QueueStatusFrame → List ℕ → Result EncodeError ℕ × List ℕ
encode_queue_status frame output =
    if ltb (length output) queue_status_frame_len
    then (err (EncodeError.buffer_too_small queue_status_frame_len (length output)), output)
    else finish (queue_status_body frame (new output))

unfoldable pub clock_request_body : ClockRequestFrame → ℕ → Write ℕ
clock_request_body frame output_len = do
  write_header clock_request_message_type frame.sequence clock_request_payload_len
  write_u8 0
  write_checksum clock_request_frame_len output_len

unfoldable pub encode_clock_request : ClockRequestFrame → List ℕ → Result EncodeError ℕ × List ℕ
encode_clock_request frame output =
    if ltb (length output) clock_request_frame_len
    then (err (EncodeError.buffer_too_small clock_request_frame_len (length output)), output)
    else finish (clock_request_body frame (length output) (new output))

unfoldable pub write_clock_response : ClockResponse → Write (Unit {0})
write_clock_response response = do
  write_u8 0
  write (to_le_bytes 8 response.controller_receive)
  write (to_le_bytes 8 response.controller_send)

unfoldable pub clock_response_body : ClockResponseFrame → ℕ → Write ℕ
clock_response_body frame output_len = do
  write_header clock_response_message_type frame.sequence clock_response_payload_len
  write_clock_response frame.response
  write_checksum clock_response_frame_len output_len

unfoldable pub encode_clock_response : ClockResponseFrame → List ℕ → Result EncodeError ℕ × List ℕ
encode_clock_response frame output =
    if ltb (length output) clock_response_frame_len
    then (err (EncodeError.buffer_too_small clock_response_frame_len (length output)), output)
    else finish (clock_response_body frame (length output) (new output))
