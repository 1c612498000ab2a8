-- ===== src/Protocol/Decode.antt =====
-- crates/control-protocol/src/lib.rs, the decoders.
use dryer.Base.{
  ℕ, ◌+◌, ◌-◌, Bool, not, ◌&&◌, List, [], ◌∷◌, Result, ok, ok_or, length, get_or, slice, ltb, ◌==◌,
}
use dryer.Base.Outcome.{◌>>=◌, ◌>>◌, refuse_if}
use dryer.Base.Words.{from_le_bytes, saturating_add}
use dryer.Protocol.{
  CommandFrame, QueueStatusFrame, ClockRequestFrame, ClockResponseFrame, DecodeError,
  protocol_version, command_message_type, queue_status_message_type, clock_request_message_type,
  clock_response_message_type, header_len, checksum_len, max_payload_len, queue_status_payload_len,
  clock_request_payload_len, clock_response_payload_len,
}
use dryer.Protocol.Crc.{crc32c}
use dryer.Protocol.Payload.{
  run, read_envelope, read_queue_status, read_reserved_flags, read_clock_response,
}

unfoldable pub require_len : List ℕ → ℕ → Result DecodeError (Unit {0})
require_len input needed =
    refuse_if (ltb (length input) needed) (DecodeError.truncated needed (length input))

-- `input[i]`, behind a `require_len` that has shown the index to be in range.
abbrev pub index : List ℕ → ℕ → ℕ
index input i = get_or input i 0

unfoldable pub read_u32_at : List ℕ → ℕ → Result DecodeError ℕ
read_u32_at input offset =
    let end = saturating_add offset 4 in
    ok_or (slice input offset end) (DecodeError.truncated end (length input)) >>= λ bytes.
    ok (from_le_bytes bytes)

-- The magic, version, type, length and checksum tests, which the source repeats in each decoder.
-- The result is the sequence number, the payload's length and the end of the payload.
unfoldable pub check_header : List ℕ → ℕ → Result DecodeError (ℕ × ℕ)
check_header input expected_type = do
  require_len input 2
  refuse_if (not (index input 0 == b'D' && index input 1 == b'R'))
      (DecodeError.invalid_magic (index input 0) (index input 1))
  require_len input header_len
  let version = index input 2
  refuse_if (not (version == protocol_version)) (DecodeError.unsupported_version version)
  let message_type = index input 3
  refuse_if (not (message_type == expected_type))
      (DecodeError.unsupported_message_type message_type)
  let sequence = from_le_bytes (index input 4 ∷ index input 5 ∷ index input 6 ∷ index input 7 ∷ [])
  let payload_len = from_le_bytes (index input 8 ∷ index input 9 ∷ [])
  refuse_if (ltb max_payload_len payload_len)
      (DecodeError.payload_too_long payload_len max_payload_len)
  ok (sequence, payload_len)

unfoldable pub check_frame : List ℕ → ℕ → Result DecodeError (Unit {0})
check_frame input payload_len = do
  let frame_len = header_len + payload_len + checksum_len
  require_len input frame_len
  refuse_if (ltb frame_len (length input))
      (DecodeError.trailing_frame_bytes (length input - frame_len))
  let payload_end = header_len + payload_len
  encoded_checksum ← read_u32_at input payload_end
  checksum_input ←
      ok_or (slice input 2 payload_end) (DecodeError.truncated payload_end (length input))
  let computed_checksum = crc32c checksum_input
  refuse_if (not (encoded_checksum == computed_checksum))
      (DecodeError.checksum_mismatch encoded_checksum computed_checksum)

-- `input.get(HEADER_LEN..payload_end).ok_or(...)?`
unfoldable pub payload_of : List ℕ → ℕ → Result DecodeError (List ℕ)
payload_of input payload_len =
    let payload_end = header_len + payload_len in
    ok_or (slice input header_len payload_end) (DecodeError.truncated payload_end (length input))

unfoldable pub decode_command : (List ℕ → Bool) → List ℕ → Result DecodeError CommandFrame
decode_command is_utf8 input = do
  (sequence, payload_len) ← check_header input command_message_type
  check_frame input payload_len
  payload ← payload_of input payload_len
  envelope ← run (read_envelope is_utf8) payload
  ok (record { sequence = sequence; envelope = envelope })

-- The header's checks with the exact length of a fixed-width payload.
unfoldable pub decode_fixed_header : List ℕ → ℕ → ℕ → Result DecodeError (ℕ × List ℕ)
decode_fixed_header input expected_type expected_payload = do
  (sequence, payload_len) ← check_header input expected_type
  check_frame input payload_len
  refuse_if (not (payload_len == expected_payload))
      (DecodeError.invalid_payload_length expected_payload payload_len)
  payload ← payload_of input payload_len
  ok (sequence, payload)

unfoldable pub decode_queue_status : List ℕ → Result DecodeError QueueStatusFrame
decode_queue_status input = do
  (sequence, payload) ← decode_fixed_header input queue_status_message_type queue_status_payload_len
  status ← run read_queue_status payload
  ok (record { sequence = sequence; status = status })

unfoldable pub decode_clock_request : List ℕ → Result DecodeError ClockRequestFrame
decode_clock_request input = do
  (sequence, payload) ←
      decode_fixed_header input clock_request_message_type clock_request_payload_len
  run read_reserved_flags payload
  ok (record { sequence = sequence })

unfoldable pub decode_clock_response : List ℕ → Result DecodeError ClockResponseFrame
decode_clock_response input = do
  (sequence, payload) ←
      decode_fixed_header input clock_response_message_type clock_response_payload_len
  response ← run read_clock_response payload
  ok (record { sequence = sequence; response = response })
