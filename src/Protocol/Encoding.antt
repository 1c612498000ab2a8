-- ===== src/Protocol/Encoding.antt =====
-- The encoders of crates/control-protocol/src/lib.rs against the layout: what they write, the
-- length that they report, and every error with the buffer untouched.
use dryer.Base.{
  ℕ, ◌+◌, ◌≤◌, ◌<◌, ◌≡◌, ap, refl, none, some, Option, List, [], ◌∷◌, ◌++◌, ok, err, length, drop,
  ltb_of_ge, lt→ltb, length-append, arith,
}
use dryer.Base.Int.{to_bits64}
use dryer.Base.Words.{to_le_bytes}
use dryer.Protocol.{
  Command, CommandEnvelope, CommandFrame, QueueStatusFrame, ClockRequestFrame, ClockResponse,
  ClockResponseFrame, EncodeError, Str, max_string_len, command_message_type,
  queue_status_message_type, clock_request_message_type, clock_response_message_type,
}
use dryer.Protocol.Emits.{Emits, >>-Emits, write-Emits, write_u8-Emits}
use dryer.Protocol.Encode.{
  encode_command, command_body, encode_queue_status, queue_status_body, encode_clock_request,
  clock_request_body, encode_clock_response, clock_response_body, write_clock_response,
}
use dryer.Protocol.Encodes.{encode_payload-Emits, write_queue_status-Emits, frame-Emits}
use dryer.Protocol.Layout.{
  frame_bytes, command_bytes, envelope_bytes, queue_status_bytes, clock_response_bytes, NameFits,
  name_of,
}
use dryer.Protocol.Sizes.{encoded_payload_len, command_len, schedule_len, encoded_string_len}

short_string_len :
    (value : Str) → length value ≤ max_string_len → encoded_string_len value ≡ ok (1 + length value)
unfolding encoded_string_len
short_string_len value h = ground arith

pub length-command_bytes :
    (command : Command) → NameFits command → length (command_bytes command) ≤ 81
length-command_bytes Command.heartbeat h = omega arith
length-command_bytes (Command.set_heater_target heater target) h =
    omega (arith, length-append heater (to_le_bytes 8 (to_bits64 target)))
length-command_bytes (Command.home axis rate) h =
    omega (arith, length-append axis (to_le_bytes 8 rate))
length-command_bytes (Command.move axis distance rate) h =
    omega (arith, length-append axis (to_le_bytes 8 (to_bits64 distance) ++ to_le_bytes 8 rate))

command_len_lem :
    (command : Command)
    → NameFits command
    → command_len command ≡ ok (length (command_bytes command))
unfolding command_len
command_len_lem Command.heartbeat h = refl
command_len_lem (Command.set_heater_target heater target) h =
    rw (short_string_len heater h)
      (ap ok (omega (arith, length-append heater (to_le_bytes 8 (to_bits64 target)))))
command_len_lem (Command.home axis rate) h =
    rw (short_string_len axis h) (ap ok (omega (arith, length-append axis (to_le_bytes 8 rate))))
command_len_lem (Command.move axis distance rate) h =
    let tail = to_le_bytes 8 (to_bits64 distance) ++ to_le_bytes 8 rate in
    rw (short_string_len axis h) (ap ok (omega (arith, length-append axis tail)))

length-envelope_bytes :
    (execute_at : Option ℕ) (command : Command)
    → 1 + schedule_len execute_at + length (command_bytes command)
      ≡ length (envelope_bytes (record { execute_at = execute_at; command = command }))
length-envelope_bytes none command = omega arith
length-envelope_bytes (some t) command = omega arith

-- The length that the encoder computes in advance is the payload's length, at most 90 bytes.
pub encoded_payload_len_lem :
    (envelope : CommandEnvelope)
    → NameFits envelope.command
    → (encoded_payload_len envelope ≡ ok (length (envelope_bytes envelope)))
      × (length (envelope_bytes envelope) ≤ 90)
unfolding encoded_payload_len
encoded_payload_len_lem envelope h =
    let size = length-envelope_bytes envelope.execute_at envelope.command in
    (
      rw (command_len_lem envelope.command h) (ap ok size),
      omega (arith, size, length-command_bytes envelope.command h, schedule envelope.execute_at),
    )
  where
    schedule : (t : Option ℕ) → schedule_len t ≤ 8
    schedule none = omega arith
    schedule (some t) = omega arith

-- A command whose name fits, with room for its frame, is written in the layout of the format; the
-- reported length is the frame's, and the bytes behind the frame keep their values.
pub encode_command-writes :
    (frame : CommandFrame) (output : List ℕ)
    → NameFits frame.envelope.command
    → 14 + length (envelope_bytes frame.envelope) ≤ length output
    → encode_command frame output ≡ (
      ok (14 + length (envelope_bytes frame.envelope)),
      frame_bytes command_message_type frame.sequence (envelope_bytes frame.envelope)
          ++ drop (14 + length (envelope_bytes frame.envelope)) output,
    )
unfolding encode_command command_body
encode_command-writes frame output h room =
    let (len, small) = encoded_payload_len_lem frame.envelope h in
    rw (len, encode_command)
      (rw
        (
          ltb_of_ge 128 (length (envelope_bytes frame.envelope)) (omega arith),
          ltb_of_ge (length output) (10 + length (envelope_bytes frame.envelope) + 4) (omega arith),
        )
        (frame-Emits (encode_payload-Emits frame.envelope h) command_message_type frame.sequence _ _
          output (omega arith) room))

-- A queue status is written in its layout whenever 36 bytes are there.
pub encode_queue_status-writes :
    (frame : QueueStatusFrame) (output : List ℕ)
    → 36 ≤ length output
    → encode_queue_status frame output ≡ (
      ok 36,
      frame_bytes queue_status_message_type frame.sequence (queue_status_bytes frame.status)
          ++ drop 36 output,
    )
unfolding encode_queue_status queue_status_body
encode_queue_status-writes frame output room = rw (ltb_of_ge (length output) 36 room) (
    frame-Emits (write_queue_status-Emits frame.status) queue_status_message_type frame.sequence _ _
      output (omega arith) room)

pub encode_clock_request-writes :
    (frame : ClockRequestFrame) (output : List ℕ)
    → 15 ≤ length output
    → encode_clock_request frame output
      ≡ (ok 15, frame_bytes clock_request_message_type frame.sequence (0 ∷ []) ++ drop 15 output)
unfolding encode_clock_request clock_request_body
encode_clock_request-writes frame output room = rw (ltb_of_ge (length output) 15 room) (
    frame-Emits (write_u8-Emits 0) clock_request_message_type frame.sequence _ _ output
      (omega arith) room)

write_clock_response-Emits :
    (response : ClockResponse)
    → Emits (write_clock_response response) (clock_response_bytes response)
unfolding write_clock_response
write_clock_response-Emits response =
    >>-Emits (write_u8-Emits 0)
      (>>-Emits (write-Emits (to_le_bytes 8 response.controller_receive)) (write-Emits _))

pub encode_clock_response-writes :
    (frame : ClockResponseFrame) (output : List ℕ)
    → 31 ≤ length output
    → encode_clock_response frame output ≡ (
      ok 31,
      frame_bytes clock_response_message_type frame.sequence (clock_response_bytes frame.response)
          ++ drop 31 output,
    )
unfolding encode_clock_response clock_response_body
encode_clock_response-writes frame output room = rw (ltb_of_ge (length output) 31 room) (
    frame-Emits (write_clock_response-Emits frame.response) clock_response_message_type
      frame.sequence _ _ output (omega arith) room)

long_string_len :
    (value : Str)
    → max_string_len < length value
    → encoded_string_len value ≡ err (EncodeError.string_too_long (length value) max_string_len)
unfolding encoded_string_len
long_string_len value h = ground arith

command_len_long :
    (command : Command)
    → max_string_len < length (name_of command)
    → command_len command
      ≡ err (EncodeError.string_too_long (length (name_of command)) max_string_len)
unfolding command_len
command_len_long Command.heartbeat h = absurd (omega arith)
command_len_long (Command.set_heater_target heater target) h = rw (long_string_len heater h)
command_len_long (Command.home axis rate) h = rw (long_string_len axis h)
command_len_long (Command.move axis distance rate) h = rw (long_string_len axis h)

-- A name of more than 63 bytes is refused before anything is written, however large the buffer is.
pub encode_command_long_name :
    (frame : CommandFrame) (output : List ℕ)
    → max_string_len < length (name_of frame.envelope.command)
    → encode_command frame output ≡ (
      err (EncodeError.string_too_long (length (name_of frame.envelope.command)) max_string_len),
      output,
    )
unfolding encode_command encoded_payload_len
encode_command_long_name frame output h =
    rw (command_len_long frame.envelope.command h, encoded_payload_len, encode_command) refl

-- A buffer that is one byte or more too short is refused with the length that is needed, and none
-- of its bytes changes.
pub encode_command_short_buffer :
    (frame : CommandFrame) (output : List ℕ)
    → NameFits frame.envelope.command
    → length output < 14 + length (envelope_bytes frame.envelope)
    → encode_command frame output ≡ (
      err (
          EncodeError.buffer_too_small
            (14 + length (envelope_bytes frame.envelope))
            (length output)),
      output,
    )
unfolding encode_command
encode_command_short_buffer frame output h short =
    let (len, small) = encoded_payload_len_lem frame.envelope h in
    rw (len, encode_command)
      (rw
        (
          ltb_of_ge 128 (length (envelope_bytes frame.envelope)) (omega arith),
          lt→ltb (length output) (10 + length (envelope_bytes frame.envelope) + 4) (omega arith),
        )
        (ap (λ n. (err (EncodeError.buffer_too_small n (length output)), output)) total))
  where
    total :
        10 + length (envelope_bytes frame.envelope) + 4
        ≡ 14 + length (envelope_bytes frame.envelope)
    total = omega arith
