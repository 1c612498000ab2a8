-- ===== src/Transport/Reader.antt =====
-- crates/transport-adapter/src/lib.rs, `TransportStreamReader`: frames dispatched by their type,
-- queue statuses into the daemon. A decoder of strings takes `str::from_utf8` as a parameter.
use dryer.Base.{
  ℕ, zero, suc, ◌*◌, ◌==◌, Bool, Option, none, some, List, [], ◌∷◌, ◌++◌, Result, ok, err, length,
  ltb, if◌then◌else◌,
}
use dryer.Daemon.{ControllerDaemon, update_queue_status}
use dryer.Protocol.{
  Str, DecodeError, truncated, header_len, max_frame_len, command_message_type,
  queue_status_message_type, clock_request_message_type, clock_response_message_type,
}
use dryer.Protocol.Decode.{
  decode_command, decode_clock_request, decode_clock_response, decode_queue_status,
}
use dryer.Transport.{
  FrameCodec, DispatchedFrame, queue_status, clock_request, clock_response, command, raw,
  TransportAdapterError, transport, decode, daemon_update,
}
use dryer.Transport.Streams.{StreamTransport}
use dryer.Transport.Codec.{enough, feed, next_frame, byte_at}

-- The size of the reader's buffer.
abbrev pub read_buf_len : ℕ
read_buf_len = max_frame_len * 4

module _ {E : Type 0} (is_utf8 : List ℕ → Bool) where
  abbrev pub decoded :
      {F : Type 0}
      → (F → DispatchedFrame)
      → Result DecodeError F
      → Result (TransportAdapterError E) DispatchedFrame
  decoded dispatch (ok frame) = ok (dispatch frame)
  decoded dispatch (err e) = err (decode e)

  -- A queue status is decoded twice: by the daemon, whose error is its own, and for the frame.
  unfoldable pub dispatch_status :
      List ℕ
      → ControllerDaemon
      → Str
      → ℕ
      → Result (TransportAdapterError E) DispatchedFrame × ControllerDaemon
  dispatch_status frame_bytes daemon controller_id current_host_us =
      let (answer, daemon') =
        update_queue_status daemon controller_id frame_bytes current_host_us in
      elim answer [
        | err e ↦ (err (daemon_update e), daemon')
        | ok status ↦ (decoded queue_status (decode_queue_status frame_bytes), daemon')
      ]

  unfoldable pub dispatch_frame :
      List ℕ
      → ControllerDaemon
      → Str
      → ℕ
      → Result (TransportAdapterError E) DispatchedFrame × ControllerDaemon
  dispatch_frame frame_bytes daemon controller_id current_host_us =
      let msg_type = byte_at frame_bytes 3 in
      if ltb (length frame_bytes) header_len
      then (err (decode (truncated header_len (length frame_bytes))), daemon)
      else if msg_type == queue_status_message_type
      then dispatch_status frame_bytes daemon controller_id current_host_us
      else if msg_type == clock_response_message_type
      then (decoded clock_response (decode_clock_response frame_bytes), daemon)
      else if msg_type == clock_request_message_type
      then (decoded clock_request (decode_clock_request frame_bytes), daemon)
      else if msg_type == command_message_type
      then (decoded command (decode_command is_utf8 frame_bytes), daemon)
      else (ok (raw msg_type frame_bytes), daemon)

  -- The `while let` loop, on fuel: nothing when the fuel has run out. The frames that were dispatched
  -- before an error are lost with it, as by the source's `?`.
  unfoldable pub dispatch_all :
      ℕ
      → FrameCodec
      → List DispatchedFrame
      → ControllerDaemon
      → Str
      → ℕ
      → Option
          (Result (TransportAdapterError E) (List DispatchedFrame) × FrameCodec × ControllerDaemon)
  dispatch_all zero codec dispatched daemon controller_id current_host_us = none
  dispatch_all (suc fuel) codec dispatched daemon controller_id current_host_us =
      elim (next_frame codec) [
        | none ↦ none
        | some (none, codec') ↦ some (ok dispatched, codec', daemon)
        | some (some frame_bytes, codec') ↦
            let (answer, daemon') =
              dispatch_frame frame_bytes daemon controller_id current_host_us in
            elim answer [
              | err e ↦ some (err e, codec', daemon')
              | ok frame ↦
                  dispatch_all fuel codec' (dispatched ++ (frame ∷ [])) daemon' controller_id
                    current_host_us
            ]
      ]

  -- The reader when `read_bytes` has answered: the bytes are fed, and the frames dispatched.
  unfoldable pub dispatch_read :
      Result E (List ℕ)
      → FrameCodec
      → ControllerDaemon
      → Str
      → ℕ
      → Option
          (Result (TransportAdapterError E) (List DispatchedFrame) × FrameCodec × ControllerDaemon)
  dispatch_read (err e) codec daemon controller_id current_host_us =
      some (err (transport e), codec, daemon)
  dispatch_read (ok bytes) codec daemon controller_id current_host_us =
      let (answer, codec') = if ltb 0 (length bytes) then feed codec bytes else (ok tt, codec) in
      elim answer [
        | err e ↦ some (err (TransportAdapterError.codec e), codec', daemon)
        | ok _ ↦ dispatch_all (enough codec'.buffer) codec' [] daemon controller_id current_host_us
      ]

  unfoldable pub read_and_dispatch :
      {T : Type 0}
      → StreamTransport T E
      → T
      → FrameCodec
      → ControllerDaemon
      → Str
      → ℕ
      → Option
          (Result (TransportAdapterError E) (List DispatchedFrame) × FrameCodec × ControllerDaemon)
        × T
  read_and_dispatch stream link codec daemon controller_id current_host_us =
      let (read, link') = stream.read_bytes link read_buf_len in
      (dispatch_read read codec daemon controller_id current_host_us, link')
