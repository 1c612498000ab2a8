-- ===== src/Client/Examples.antt =====
-- The command client and the clock session with a sink that keeps its last frame.
use dryer.Base.{
  ℕ, ◌+◌, ◌≡◌, ◌⊎◌, refl, Bool, true, false, ◌&&◌, none, List, [], ◌∷◌, take, length, replicate, ok,
  err, ltb, arith,
}
use dryer.Base.Int.{pos}
use dryer.Client.{
  SendFrame, Now, SendError, CommandClient, ClockSession, ClockSessionError, ClockRequestReceipt,
}
use dryer.Client.Answers.{Refused, Retired, InTime, accept_at-retires}
use dryer.Client.RoundTrip.{Begun, awaited, accept_at-begin_session}
use dryer.Client.Commands.{with_initial_sequence, frame_of, following, send_inner}
use dryer.Client.Sequences.{send_inner-long_name, send_inner-delivers}
use dryer.Client.Session.{new_session, begin_session, accept_at}
use dryer.Client.Sessions.{logged, Carried, opened, begun, Descending, History-Descending}
use dryer.Clock.{ClockSync}
use dryer.Clock.Sync.{new}
use dryer.Client.{MultiControllerClockSync}
use dryer.Client.Cluster.{new_cluster, add_controller}
use dryer.Protocol.{Command, ClockResponseFrame, EncodeError}
use dryer.Protocol.Decode.{decode_command}
use dryer.Protocol.Encode.{
  encode_command, encode_clock_response, encode_clock_request, command_body, write_header,
  write_checksum, write_schedule, encode_command_body, encode_payload, clock_response_body,
  write_clock_response, clock_request_body,
}
use dryer.Protocol.Sizes.{encoded_payload_len, command_len, encoded_string_len}
use dryer.Protocol.Writer.{write, write_u8, write_string}

abbrev is_ascii : List ℕ → Bool
is_ascii [] = true
is_ascii (b ∷ bs) = ltb b 128 && is_ascii bs

-- A sink that keeps the frame and always takes it.
abbrev keep : SendFrame (List ℕ) ℕ
keep sink frame = (ok tt, frame)

abbrev clock_now : Now ℕ
clock_now tick = (tick, tick + 10)

abbrev client : CommandClient (List ℕ)
client = with_initial_sequence [] 0xffff_ffff

abbrev homing : Command
homing = Command.home (b'x' ∷ []) 400

abbrev too_long : Command
too_long = Command.home (replicate 64 b'x') 400

homing_length : (encode_command (frame_of 0xffff_ffff none homing) client.frame).0 ≡ ok 26
unfolding encode_command command_body write_header write_checksum write_schedule encode_command_body
    encode_payload encoded_payload_len command_len encoded_string_len write write_u8 write_string
homing_length = refl

send_inner-delivers_example :
    (bytes : List ℕ) × (decode_command is_ascii bytes ≡ ok (frame_of 0xffff_ffff none homing))
    × (((send_inner keep client none homing).1).sink ≡ (keep [] bytes).1)
    × (((send_inner keep client none homing).1).next_sequence ≡ following 0xffff_ffff)
    × ((send_inner keep client none homing).0 ≡ elim (keep [] bytes).0 [
      | ok _ ↦ ok (record { sequence = 0xffff_ffff; frame_len = 26 })
      | err e ↦ err (SendError.transport e)
    ])
send_inner-delivers_example =
    send_inner-delivers keep client none homing is_ascii 26 (omega arith) (refl, omega arith) tt
      homing_length

send_inner-long_name_example :
    send_inner keep client none too_long
    ≡ (err (SendError.encode (EncodeError.string_too_long 64 63)), client)
send_inner-long_name_example = send_inner-long_name keep client none too_long (omega arith)

abbrev unsynced : ClockSync
unsynced = record {
  max_slew_ppb = pos 10;
  session_start = none;
  previous = none;
  estimate = none;
  last_raw = none;
}

abbrev session : ClockSession
session = record {
  sync = unsynced;
  next_sequence = 0;
  exhausted = false;
  timeout_ticks = 100;
  pending = none;
  request = replicate 15 0;
}

session_opened : new_session (pos 10) 100 ≡ ok session
unfolding new_session new
session_opened = refl

abbrev asked : ClockSession
asked = (begin_session keep clock_now session [] 5).1

abbrev receipt : ClockRequestReceipt
receipt = record { sequence = 0; frame_len = 15 }

asked_receipt : (begin_session keep clock_now session [] 5).0 ≡ ok receipt
unfolding begin_session encode_clock_request clock_request_body write_header write_checksum write
    write_u8
asked_receipt = refl

-- A sink that takes nothing.
abbrev broken : SendFrame (List ℕ) ℕ
broken sink frame = (err 7, sink)

-- Two requests, of which the sink refuses the first.
abbrev refused_once : ClockSession × (List (List ℕ) × List ℕ) × ℕ
refused_once =
    let (answer, s, log, clock) = begin_session (logged broken) clock_now session ([], []) 5 in
    (s, log, clock)

abbrev asked_again : ClockSession × List (List ℕ)
asked_again =
    let (answer, s, log, clock) =
      begin_session (logged keep) clock_now refused_once.0 ((refused_once.1).0, []) 5 in
    (s, log.0)

-- The frame that the sink refused stands in the log beside the next.
two_handed : length asked_again.1 ≡ 2
unfolding begin_session encode_clock_request clock_request_body write_header write_checksum write
    write_u8
two_handed = refl

History-Descending_example :
    (sequences : List ℕ) × Carried (asked_again.1) sequences × Descending sequences
History-Descending_example =
    History-Descending asked_again.0 asked_again.1
      (begun (begun (opened (pos 10) 100 session_opened) broken clock_now [] 5) keep clock_now [] 5)

abbrev answer : ClockResponseFrame
answer = record { sequence = 0; response = record { controller_receive = 8; controller_send = 9 } }

abbrev blank : List ℕ
blank = replicate 31 0

answer_length : (encode_clock_response answer blank).0 ≡ ok 31
unfolding encode_clock_response clock_response_body write_clock_response write_header write_checksum
    write write_u8
answer_length = refl

accept_at-begin_session_example :
    let begun = begin_session keep clock_now session [] 5 in
    let bytes = take 31 (encode_clock_response answer blank).1 in
    Begun keep clock_now session [] 5 receipt begun
    × InTime ℕ begun.1 bytes 12
        (awaited keep clock_now session [] 5)
        answer
        (accept_at begun.1 bytes 12)
accept_at-begin_session_example =
    accept_at-begin_session keep clock_now session [] 5 receipt answer blank 31 12 asked_receipt
      (omega arith) refl (omega arith) (omega arith) answer_length (omega arith)

accept_at-retires_example :
    ((e : ClockSessionError ℕ) × Refused ℕ asked [] 12 e × (accept_at asked [] 12 ≡ (err e, asked)))
    ⊎ Retired ℕ asked [] 12 (accept_at asked [] 12)
accept_at-retires_example = accept_at-retires ℕ asked [] 12

abbrev cluster : MultiControllerClockSync
cluster = (add_controller (new_cluster (pos 10) 100) (b'a' ∷ [])).1
