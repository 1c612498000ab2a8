-- ===== src/Simulator/Controller/Wire.antt =====
-- crates/simulator/src/lib.rs, `process_wire_frame`: the controller at the other end of the wire.
use dryer.Base.{
  ℕ, ◌%◌, ◌^◌, ◌==◌, Bool, true, false, Option, none, some, List, Result, ok, err, length,
  replicate, take, ltb, if◌then◌else◌,
}
use dryer.Protocol.{
  DecodeError, EncodeError, QueueStatusFrame, ClockRequestFrame, ClockResponseFrame, CommandFrame,
  command_message_type, queue_status_message_type, clock_request_message_type,
  queue_status_frame_len, clock_response_frame_len,
}
use dryer.Protocol.Decode.{decode_command, decode_queue_status, decode_clock_request, index}
use dryer.Protocol.Encode.{encode_queue_status, encode_clock_response}
use dryer.Simulator.Controller.{SimController, FaultCode, queue_status_of}
use dryer.Simulator.Controller.Accept.{accept}

-- The source's texts, as the values that they are formatted from.
pub data WireError : Type 0 where
  header_too_short : WireError
  decode_command_error decode_queue_status_error decode_clock_request_error :
      DecodeError → WireError
  encode_queue_status_error encode_clock_response_error : EncodeError → WireError
  unsupported_message_type : (other : ℕ) → WireError

abbrev pub Wired : Type 0 → Type 0
Wired F = Result WireError (Option (List ℕ)) × SimController F

-- The bytes of an answer: the buffer, cut to the length that was written.
abbrev pub answer_bytes :
    (EncodeError → WireError) → Result EncodeError ℕ × List ℕ → Result WireError (Option (List ℕ))
answer_bytes failed (err e, buffer) = err (failed e)
answer_bytes failed (ok n, buffer) = ok (some (take n buffer))

abbrev pub is_latched : Option FaultCode → Bool
is_latched none = false
is_latched (some code) = true

module _ {F : Type 0} where
  unfoldable pub wire_command : Result DecodeError CommandFrame → SimController F → Wired F
  wire_command (err e) controller = (err (decode_command_error e), controller)
  wire_command (ok frame) controller = (ok none, accept controller frame.envelope)

  -- The words of 16 bits are cut from the queue's lengths.
  abbrev pub status_frame : ℕ → SimController F → QueueStatusFrame
  status_frame sequence controller =
      let status = queue_status_of controller in
      record {
        sequence = sequence;
        status = record {
          capacity = status.capacity % 2 ^ 16;
          fill = status.fill_level % 2 ^ 16;
          earliest_accepted = status.earliest_accepted_timestamp;
          latest_accepted = status.latest_accepted_timestamp;
          underrun = is_latched controller.latched_fault;
        };
      }

  unfoldable pub wire_status : Result DecodeError QueueStatusFrame → SimController F → Wired F
  wire_status (err e) controller = (err (decode_queue_status_error e), controller)
  wire_status (ok request) controller = (
    answer_bytes encode_queue_status_error (
        encode_queue_status (status_frame request.sequence controller)
          (replicate queue_status_frame_len 0)),
    controller,
  )

  abbrev pub clock_frame : ℕ → SimController F → ClockResponseFrame
  clock_frame sequence controller = record {
    sequence = sequence;
    response = record { controller_receive = controller.now; controller_send = controller.now };
  }

  unfoldable pub wire_clock : Result DecodeError ClockRequestFrame → SimController F → Wired F
  wire_clock (err e) controller = (err (decode_clock_request_error e), controller)
  wire_clock (ok request) controller = (
    answer_bytes encode_clock_response_error (
        encode_clock_response (clock_frame request.sequence controller)
          (replicate clock_response_frame_len 0)),
    controller,
  )

  unfoldable pub process_wire_frame : (List ℕ → Bool) → SimController F → List ℕ → Wired F
  process_wire_frame is_utf8 controller frame =
      let message_type = index frame 3 in
      if ltb (length frame) 4
      then (err header_too_short, controller)
      else if message_type == command_message_type
      then wire_command (decode_command is_utf8 frame) controller
      else if message_type == queue_status_message_type
      then wire_status (decode_queue_status frame) controller
      else if message_type == clock_request_message_type
      then wire_clock (decode_clock_request frame) controller
      else (err (unsupported_message_type message_type), controller)
