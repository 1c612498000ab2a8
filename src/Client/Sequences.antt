-- ===== src/Client/Sequences.antt =====
-- crates/control-client/src/lib.rs: what a command client hands to its sink, and which sequence
-- numbers it consumes.
use dryer.Base.{
  ℕ, ◌^◌, ◌<◌, ◌≡◌, refl, ap, Bool, Option, List, Result, ok, err, length, Result-cases, take, inl,
  inr,
}
use dryer.Client.{SendFrame, SendError, CommandClient}
use dryer.Client.Commands.{following, frame_of, deliver, send_inner}
use dryer.Protocol.{Command, Tick, EncodeError, max_string_len}
use dryer.Protocol.Encoding.{encode_command_long_name}
use dryer.Protocol.Decode.{decode_command}
use dryer.Protocol.Encode.{encode_command}
use dryer.Protocol.Layout.{CommandFits, ScheduleFits, name_of}
use dryer.Protocol.RoundTrip.{decode_command-encode_command}

module _ {S E : Type 0} (send_frame : SendFrame S E) (client : CommandClient S)
    (execute_at : Option Tick) (command : Command) where
  -- A command whose name has more than 63 bytes is refused with that length, and the client stays as it
  -- was: its sink is not called, its sequence number not consumed, its buffer not written.
  pub send_inner-long_name :
      max_string_len < length (name_of command)
      → send_inner send_frame client execute_at command ≡ (
        err (
            SendError.encode
              (EncodeError.string_too_long (length (name_of command)) max_string_len)),
        client,
      )
  unfolding send_inner
  send_inner-long_name long =
      let refused =
        encode_command_long_name (frame_of client.next_sequence execute_at command) client.frame
          long in
      let answer = ap (λ (p : Result EncodeError ℕ × List ℕ). p.0) refused in
      let frame = ap (λ (p : Result EncodeError ℕ × List ℕ). p.1) refused in
      rw (send_inner, answer, frame) refl

  deliver_lem :
      (n : ℕ) (frame : List ℕ)
      → let bytes = take n frame in
        let (answer, client') = deliver send_frame client n frame in
        (client'.sink ≡ (send_frame client.sink bytes).1)
        × (client'.next_sequence ≡ following client.next_sequence)
        × (answer ≡ elim (send_frame client.sink bytes).0 [
          | ok _ ↦ ok (record { sequence = client.next_sequence; frame_len = n })
          | err e ↦ err (SendError.transport e)
        ])
  deliver_lem n frame = elim (Result-cases (send_frame client.sink (take n frame)).0) [
    | inl (_, sent) ↦ rw (deliver, sent) (refl, refl, refl)
    | inr (e, failed) ↦ rw (deliver, failed) (refl, refl, refl)
  ]

  -- A command that encodes consumes its sequence number whatever the sink answers; the sink is
  -- called once, with bytes that decode to the command under that number; and its answer decides
  -- between a receipt and a transport error.
  pub send_inner-delivers :
      (is_utf8 : List ℕ → Bool) (n : ℕ)
      → client.next_sequence < 2 ^ 32
      → CommandFits is_utf8 command
      → ScheduleFits execute_at
      → (encode_command (frame_of client.next_sequence execute_at command) client.frame).0 ≡ ok n
      → (bytes : List ℕ) × (decode_command is_utf8 bytes
          ≡ ok (frame_of client.next_sequence execute_at command))
        × (((send_inner send_frame client execute_at command).1).sink
            ≡ (send_frame client.sink bytes).1)
        × (((send_inner send_frame client execute_at command).1).next_sequence
            ≡ following client.next_sequence)
        × ((send_inner send_frame client execute_at command).0
            ≡ elim (send_frame client.sink bytes).0 [
              | ok _ ↦ ok (record { sequence = client.next_sequence; frame_len = n })
              | err e ↦ err (SendError.transport e)
            ])
  unfolding send_inner
  send_inner-delivers is_utf8 n numbered fits scheduled encoded =
      let frame = frame_of client.next_sequence execute_at command in
      let bytes = take n (encode_command frame client.frame).1 in
      let (sunk, numbered', answered) = deliver_lem n (encode_command frame client.frame).1 in
      let decoded =
        decode_command-encode_command is_utf8 frame client.frame n numbered fits scheduled
          encoded in
      (
        bytes,
        decoded,
        rw (send_inner, encoded) sunk,
        rw (send_inner, encoded) numbered',
        rw (send_inner, encoded) answered,
      )
