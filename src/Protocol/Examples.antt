-- ===== src/Protocol/Examples.antt =====
-- Runs of the codec on the golden frames of crates/control-protocol/tests/codec.rs, and the
-- theorems at concrete inputs.
use dryer.Base.{
  ℕ, ◌≡◌, refl, none, some, true, List, [], ◌∷◌, ◌++◌, ok, err, Bool, ◌&&◌, ltb, replicate, take,
  drop, arith,
}
use dryer.Base.Int.{negsuc}
use dryer.Protocol.{Command, CommandFrame, QueueStatusFrame, ClockResponseFrame, EncodeError}
use dryer.Protocol.Crc.{crc32c, crc_bytes, crc_byte, crc_rounds, crc_bit, mask}
use dryer.Protocol.Decode.{
  decode_command, decode_queue_status, decode_clock_request, decode_clock_response,
}
use dryer.Protocol.Encode.{
  encode_command, encode_queue_status, encode_clock_request, encode_clock_response, command_body,
  write_header, write_checksum, write_schedule, encode_command_body, encode_payload,
  queue_status_body, write_queue_status, clock_request_body, clock_response_body,
  write_clock_response,
}
use dryer.Protocol.Encoding.{
  encode_command-writes, encode_command_long_name, encode_command_short_buffer,
}
use dryer.Protocol.Layout.{frame_bytes, envelope_bytes}
use dryer.Protocol.RoundTrip.{
  decode_command-encode_command, decode_queue_status-encode_queue_status,
  decode_clock_request-encode_clock_request, decode_clock_response-encode_clock_response,
}
use dryer.Protocol.Sizes.{encoded_payload_len, command_len, encoded_string_len}
use dryer.Protocol.Writer.{write, write_u8, write_string}

-- The bytes of ASCII text, all of which are valid UTF-8.
abbrev is_ascii : List ℕ → Bool
is_ascii [] = true
is_ascii (b ∷ bs) = ltb b 128 && is_ascii bs

check_value :
    crc32c (b'1' ∷ b'2' ∷ b'3' ∷ b'4' ∷ b'5' ∷ b'6' ∷ b'7' ∷ b'8' ∷ b'9' ∷ []) ≡ 0xe306_9283
unfolding crc32c crc_bytes crc_byte crc_rounds crc_bit mask
check_value = refl

abbrev heartbeat_frame : CommandFrame
heartbeat_frame = record {
  sequence = 0x0102_0304;
  envelope = record { execute_at = none; command = Command.heartbeat };
}

abbrev move_frame : CommandFrame
move_frame = record {
  sequence = 9;
  envelope = record {
    execute_at = some 1_000_000;
    command = Command.move (b'x' ∷ b'y' ∷ []) (negsuc 1_999) 120_000;
  };
}

abbrev home_frame : CommandFrame
home_frame = record {
  sequence = 7;
  envelope = record { execute_at = none; command = Command.home (replicate 64 b'x') 10_000 };
}

abbrev blank : List ℕ
blank = replicate 142 0xa5

abbrev status_frame : QueueStatusFrame
status_frame = record {
  sequence = 0x0a0b_0c0d;
  status = record {
    capacity = 1_024;
    fill = 42;
    earliest_accepted = 0x0102_0304_0506_0708;
    latest_accepted = 0x1112_1314_1516_1718;
    underrun = true;
  };
}

abbrev response_frame : ClockResponseFrame
response_frame = record {
  sequence = 3;
  response = record { controller_receive = 5; controller_send = 0xffff_ffff_ffff_ffff };
}

heartbeat_golden :
    take 16 (encode_command heartbeat_frame blank).1
    ≡ 68 ∷ 82 ∷ 1 ∷ 1 ∷ 4 ∷ 3 ∷ 2 ∷ 1 ∷ 2 ∷ 0 ∷ 0 ∷ 0 ∷ 0x5d ∷ 0x46 ∷ 0x57 ∷ 0x19 ∷ []
unfolding encode_command command_body write_header write_checksum write_schedule encode_command_body
    encode_payload encoded_payload_len command_len write write_u8 crc32c crc_bytes crc_byte
    crc_rounds crc_bit mask
heartbeat_golden = refl

move_length : (encode_command move_frame blank).0 ≡ ok 43
unfolding encode_command command_body write_header write_checksum write_schedule encode_command_body
    encode_payload encoded_payload_len command_len encoded_string_len write write_u8 write_string
move_length = refl

move_checksum :
    drop 39 (take 43 (encode_command move_frame blank).1) ≡ 0x07 ∷ 0x57 ∷ 0xd6 ∷ 0x5e ∷ []
unfolding encode_command command_body write_header write_checksum write_schedule encode_command_body
    encode_payload encoded_payload_len command_len encoded_string_len write write_u8 write_string
    crc32c crc_bytes crc_byte crc_rounds crc_bit mask
move_checksum = refl

decode_command-encode_command_example :
    decode_command is_ascii (take 43 (encode_command move_frame blank).1) ≡ ok move_frame
decode_command-encode_command_example =
    decode_command-encode_command is_ascii move_frame blank 43 (omega arith)
      (refl, omega arith, omega arith) (omega arith) move_length

status_length : (encode_queue_status status_frame blank).0 ≡ ok 36
unfolding encode_queue_status queue_status_body write_queue_status write_header write_checksum write
    write_u8
status_length = refl

decode_queue_status-encode_queue_status_example :
    decode_queue_status (take 36 (encode_queue_status status_frame blank).1) ≡ ok status_frame
decode_queue_status-encode_queue_status_example =
    decode_queue_status-encode_queue_status status_frame blank 36 (omega arith) (omega arith)
      status_length

request_length : (encode_clock_request (record { sequence = 8 }) blank).0 ≡ ok 15
unfolding encode_clock_request clock_request_body write_header write_checksum write write_u8
request_length = refl

decode_clock_request-encode_clock_request_example :
    decode_clock_request (take 15 (encode_clock_request (record { sequence = 8 }) blank).1)
    ≡ ok (record { sequence = 8 })
decode_clock_request-encode_clock_request_example =
    decode_clock_request-encode_clock_request (record { sequence = 8 }) blank 15 (omega arith)
      request_length

response_length : (encode_clock_response response_frame blank).0 ≡ ok 31
unfolding encode_clock_response clock_response_body write_clock_response write_header write_checksum
    write write_u8
response_length = refl

decode_clock_response-encode_clock_response_example :
    decode_clock_response (take 31 (encode_clock_response response_frame blank).1)
    ≡ ok response_frame
decode_clock_response-encode_clock_response_example =
    decode_clock_response-encode_clock_response response_frame blank 31 (omega arith) (omega arith)
      (omega arith) response_length

encode_command-writes_example :
    encode_command move_frame blank
    ≡ (ok 43, frame_bytes 1 9 (envelope_bytes move_frame.envelope) ++ replicate 99 0xa5)
encode_command-writes_example = encode_command-writes move_frame blank (omega arith) (omega arith)

encode_command_long_name_example :
    encode_command home_frame blank ≡ (err (EncodeError.string_too_long 64 63), blank)
encode_command_long_name_example = encode_command_long_name home_frame blank (omega arith)

encode_command_short_buffer_example :
    encode_command move_frame (replicate 42 0)
    ≡ (err (EncodeError.buffer_too_small 43 42), replicate 42 0)
encode_command_short_buffer_example =
    encode_command_short_buffer move_frame (replicate 42 0) (omega arith) (omega arith)
