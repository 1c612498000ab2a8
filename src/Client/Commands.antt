-- ===== src/Client/Commands.antt =====
-- crates/control-client/src/lib.rs, `CommandClient`.
use dryer.Base.{ℕ, ◌+◌, ◌%◌, ◌^◌, Option, none, some, List, Result, ok, err, take, replicate}
use dryer.Client.{SendFrame, SendReceipt, SendError, CommandClient}
use dryer.Protocol.{Command, CommandFrame, Tick, max_frame_len}
use dryer.Protocol.Encode.{encode_command}

-- `sequence.wrapping_add(1)` of a u32.
abbrev pub following : ℕ → ℕ
following sequence = (sequence + 1) % 2 ^ 32

abbrev pub with_initial_sequence : {S : Type 0} → S → ℕ → CommandClient S
with_initial_sequence sink next_sequence = record {
  sink = sink;
  next_sequence = next_sequence;
  frame = replicate max_frame_len 0;
}

abbrev pub frame_of : ℕ → Option Tick → Command → CommandFrame
frame_of sequence execute_at command = record {
  sequence = sequence;
  envelope = record { execute_at = execute_at; command = command };
}

module _ {S E : Type 0} (send_frame : SendFrame S E) where
  -- What follows the encoding: the sequence is committed, then the frame is sent.
  abbrev pub deliver :
      CommandClient S
      → (frame_len : ℕ) (frame : List ℕ) → Result (SendError E) SendReceipt × CommandClient S
  deliver client frame_len frame =
      let (sent, sink) = send_frame client.sink (take frame_len frame) in
      let client' : CommandClient S = record {
        sink = sink;
        next_sequence = following client.next_sequence;
        frame = frame;
      } in
      elim sent [
        | ok _ ↦ (ok (record { sequence = client.next_sequence; frame_len = frame_len }), client')
        | err e ↦ (err (SendError.transport e), client')
      ]

  unfoldable pub send_inner :
      CommandClient S → Option Tick → Command → Result (SendError E) SendReceipt × CommandClient S
  send_inner client execute_at command =
      let (encoded, frame) =
        encode_command (frame_of client.next_sequence execute_at command) client.frame in
      elim encoded [
        | err e ↦ (err (SendError.encode e), record client { frame = frame })
        | ok frame_len ↦ deliver client frame_len frame
      ]

  abbrev pub send : CommandClient S → Command → Result (SendError E) SendReceipt × CommandClient S
  send client command = send_inner client none command

  abbrev pub send_scheduled :
      CommandClient S → Tick → Command → Result (SendError E) SendReceipt × CommandClient S
  send_scheduled client execute_at command = send_inner client (some execute_at) command
