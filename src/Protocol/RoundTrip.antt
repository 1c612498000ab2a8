-- ===== src/Protocol/RoundTrip.antt =====
-- What an encoder of crates/control-protocol/src/lib.rs wrote, its decoder reads back.
use mathlib.Core.Path.{subst}
use dryer.Base.{
  ℕ, ◌+◌, ◌≤◌, ◌<◌, ◌^◌, ◌≡◌, inl, inr, refl, ap, Bool, List, [], ◌∷◌, ◌++◌, Result, ok, err,
  length, take, ltb, ltb→lt, lt→ltb, ltb_false→le, Bool-cases, take-append, arith,
}
use dryer.Protocol.{
  CommandFrame, QueueStatusFrame, ClockRequestFrame, ClockResponseFrame, EncodeError,
  command_message_type, queue_status_message_type, clock_request_message_type,
  clock_response_message_type,
}
use dryer.Protocol.Decode.{
  decode_command, decode_queue_status, decode_clock_request, decode_clock_response,
}
use dryer.Protocol.Decoding.{
  read_envelope_lem, read_queue_status_lem, read_reserved_flags_lem, read_clock_response_lem,
}
use dryer.Protocol.Encode.{
  encode_command, encode_queue_status, encode_clock_request, encode_clock_response,
}
use dryer.Protocol.Encoding.{
  encoded_payload_len_lem, encode_command-writes, encode_command_long_name,
  encode_command_short_buffer, encode_queue_status-writes, encode_clock_request-writes,
  encode_clock_response-writes,
}
use dryer.Protocol.Frames.{
  length-frame_bytes, check_header_lem, check_frame_lem, payload_of_lem, decode_fixed_header_lem,
}
use dryer.Protocol.Layout.{
  frame_bytes, envelope_bytes, queue_status_bytes, clock_response_bytes, name_of, NameFits,
  CommandFits, ScheduleFits, StatusFits,
}

take-frame_bytes :
    (message_type sequence : ℕ) (payload rest : List ℕ)
    → take (14 + length payload) (frame_bytes message_type sequence payload ++ rest)
      ≡ frame_bytes message_type sequence payload
take-frame_bytes message_type sequence payload rest =
    subst
      (λ n.
        take n (frame_bytes message_type sequence payload ++ rest)
        ≡ frame_bytes message_type sequence payload)
      (length-frame_bytes message_type sequence payload)
      (take-append (frame_bytes message_type sequence payload) rest)

-- The bytes of the length that an encoder reports are the frame.
front :
    (message_type sequence : ℕ) (payload rest : List ℕ) (r : Result EncodeError ℕ × List ℕ) (m : ℕ)
    → r ≡ (ok (14 + length payload), frame_bytes message_type sequence payload ++ rest)
    → r.0 ≡ ok m
    → take m r.1 ≡ frame_bytes message_type sequence payload
front message_type sequence payload rest r m e h =
    rw e (rw (← size) (take-frame_bytes message_type sequence payload rest))
  where
    size : 14 + length payload ≡ m
    size = ground (arith, ap (λ (p : Result EncodeError ℕ × List ℕ). p.0) e, h)

-- An encoder that answers with a length had room for the frame.
had_room :
    (r : Result EncodeError ℕ × List ℕ) (needed m : ℕ) (output : List ℕ)
    → (length output < needed
        → r ≡ (err (EncodeError.buffer_too_small needed (length output)), output))
    → r.0 ≡ ok m
    → needed ≤ length output
had_room r needed m output short h = elim (Bool-cases (ltb (length output) needed)) [
  | inl small ↦
      absurd (cc (ap (λ (p : Result EncodeError ℕ × List ℕ). p.0) (short (ltb→lt _ _ small)), h))
  | inr room ↦ ltb_false→le _ _ room
]

module _ (is_utf8 : List ℕ → Bool) where
  decode_command-frame_bytes :
      (frame : CommandFrame)
      → frame.sequence < 2 ^ 32
      → NameFits frame.envelope.command
      → CommandFits is_utf8 frame.envelope.command
      → ScheduleFits frame.envelope.execute_at
      → decode_command is_utf8
          (frame_bytes command_message_type frame.sequence (envelope_bytes frame.envelope))
        ≡ ok frame
  unfolding decode_command
  decode_command-frame_bytes frame numbered named fits scheduled =
      let (_, small) = encoded_payload_len_lem frame.envelope named in
      let payload = envelope_bytes frame.envelope in
      rw
        (
          check_header_lem command_message_type frame.sequence payload numbered (omega arith),
          check_frame_lem command_message_type frame.sequence payload (omega arith),
          payload_of_lem command_message_type frame.sequence payload,
          read_envelope_lem is_utf8 frame.envelope named fits scheduled (omega arith),
        )
        refl

  -- Whenever the encoder answers with a length n, the decoder reads the first n bytes of the buffer
  -- back as the same frame: for every frame that the Rust types can hold, in any buffer.
  pub decode_command-encode_command :
      (frame : CommandFrame) (output : List ℕ) (n : ℕ)
      → frame.sequence < 2 ^ 32
      → CommandFits is_utf8 frame.envelope.command
      → ScheduleFits frame.envelope.execute_at
      → (encode_command frame output).0 ≡ ok n
      → decode_command is_utf8 (take n (encode_command frame output).1) ≡ ok frame
  decode_command-encode_command frame output n numbered fits scheduled done =
      rw
        (front command_message_type frame.sequence (envelope_bytes frame.envelope) _
          (encode_command frame output) n
          (encode_command-writes frame output named (
            had_room (encode_command frame output) _ n output
              (encode_command_short_buffer frame output named) done))
          done)
        (decode_command-frame_bytes frame numbered named fits scheduled)
    where
      named : NameFits frame.envelope.command
      named = elim (Bool-cases (ltb 63 (length (name_of frame.envelope.command)))) [
        | inl long ↦ absurd (
            cc (
              ap (λ (p : Result EncodeError ℕ × List ℕ). p.0)
                  (encode_command_long_name frame output (ltb→lt _ _ long)),
              done,
            ))
        | inr short ↦ ltb_false→le _ _ short
      ]

encode_queue_status_short_buffer :
    (frame : QueueStatusFrame) (output : List ℕ)
    → length output < 36
    → encode_queue_status frame output
      ≡ (err (EncodeError.buffer_too_small 36 (length output)), output)
unfolding encode_queue_status
encode_queue_status_short_buffer frame output short = rw (lt→ltb (length output) 36 short) refl

-- The queue status that a buffer was given comes back from it.
pub decode_queue_status-encode_queue_status :
    (frame : QueueStatusFrame) (output : List ℕ) (n : ℕ)
    → frame.sequence < 2 ^ 32
    → StatusFits frame.status
    → (encode_queue_status frame output).0 ≡ ok n
    → decode_queue_status (take n (encode_queue_status frame output).1) ≡ ok frame
unfolding decode_queue_status
decode_queue_status-encode_queue_status frame output n numbered fits done =
    let bytes = queue_status_bytes frame.status in
    rw
      (
        front queue_status_message_type frame.sequence bytes _ (encode_queue_status frame output) n
            (encode_queue_status-writes frame output (
              had_room (encode_queue_status frame output) 36 n output
                (encode_queue_status_short_buffer frame output) done))
            done,
        decode_fixed_header_lem queue_status_message_type frame.sequence bytes numbered
            (omega arith),
        read_queue_status_lem frame.status fits,
      )
      refl

encode_clock_request_short_buffer :
    (frame : ClockRequestFrame) (output : List ℕ)
    → length output < 15
    → encode_clock_request frame output
      ≡ (err (EncodeError.buffer_too_small 15 (length output)), output)
unfolding encode_clock_request
encode_clock_request_short_buffer frame output short = rw (lt→ltb (length output) 15 short) refl

-- A clock request comes back from the frame that it was encoded to, in any buffer that the encoder
-- accepted.
pub decode_clock_request-encode_clock_request :
    (frame : ClockRequestFrame) (output : List ℕ) (n : ℕ)
    → frame.sequence < 2 ^ 32
    → (encode_clock_request frame output).0 ≡ ok n
    → decode_clock_request (take n (encode_clock_request frame output).1) ≡ ok frame
unfolding decode_clock_request
decode_clock_request-encode_clock_request frame output n numbered done =
    rw
      (
        front clock_request_message_type frame.sequence (0 ∷ []) _
            (encode_clock_request frame output) n
            (encode_clock_request-writes frame output (
              had_room (encode_clock_request frame output) 15 n output
                (encode_clock_request_short_buffer frame output) done))
            done,
        decode_fixed_header_lem clock_request_message_type frame.sequence (0 ∷ []) numbered
            (omega arith),
        read_reserved_flags_lem,
      )
      refl

encode_clock_response_short_buffer :
    (frame : ClockResponseFrame) (output : List ℕ)
    → length output < 31
    → encode_clock_response frame output
      ≡ (err (EncodeError.buffer_too_small 31 (length output)), output)
unfolding encode_clock_response
encode_clock_response_short_buffer frame output short = rw (lt→ltb (length output) 31 short) refl

pub decode_clock_response_layout :
    (frame : ClockResponseFrame)
    → frame.sequence < 2 ^ 32
    → frame.response.controller_receive < 2 ^ 64
    → frame.response.controller_send < 2 ^ 64
    → decode_clock_response (
        frame_bytes clock_response_message_type frame.sequence
          (clock_response_bytes frame.response))
      ≡ ok frame
unfolding decode_clock_response
decode_clock_response_layout frame numbered receive send =
    rw
      (
        decode_fixed_header_lem clock_response_message_type frame.sequence
            (clock_response_bytes frame.response) numbered (omega arith),
        read_clock_response_lem frame.response receive send,
      )
      refl

-- The controller's timestamps survive the trip through a frame.
pub decode_clock_response-encode_clock_response :
    (frame : ClockResponseFrame) (output : List ℕ) (n : ℕ)
    → frame.sequence < 2 ^ 32
    → frame.response.controller_receive < 2 ^ 64
    → frame.response.controller_send < 2 ^ 64
    → (encode_clock_response frame output).0 ≡ ok n
    → decode_clock_response (take n (encode_clock_response frame output).1) ≡ ok frame
decode_clock_response-encode_clock_response frame output n numbered receive send done =
    rw
      (front clock_response_message_type frame.sequence (clock_response_bytes frame.response) _
        (encode_clock_response frame output) n
        (encode_clock_response-writes frame output (
          had_room (encode_clock_response frame output) 31 n output
            (encode_clock_response_short_buffer frame output) done))
        done)
      (decode_clock_response_layout frame numbered receive send)
