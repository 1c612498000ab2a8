-- ===== src/Protocol/Payload.antt =====
-- crates/control-protocol/src/lib.rs, the payload halves of the decoders: what is read from a
-- payload whose frame has passed every check on the header and the checksum.
use Prim.Native.Nat.{bit_and}
use dryer.Base.{ℕ, ◌-◌, Bool, not, Option, none, some, List, Result, ok, err, ◌==◌, if◌then◌else◌}
use dryer.Protocol.{
  Command, CommandEnvelope, QueueStatus, ClockResponse, DecodeError, flag_execute_at, known_flags,
  queue_status_flag_underrun, tag_heartbeat, tag_set_heater_target, tag_home, tag_move,
}
use dryer.Protocol.Reader.{
  Read, ◌>>=◌, ◌>>◌, return, fail, refuse_if, new, remaining, read_u8, read_u16, read_u64, read_i64,
  read_string,
}

-- `flags & !known != 0`, on a byte.
abbrev pub unknown_bits : ℕ → ℕ → Bool
unknown_bits flags known = not (bit_and flags (255 - known) == 0)

abbrev pub has_flag : ℕ → ℕ → Bool
has_flag flags flag = not (bit_and flags flag == 0)

unfoldable pub read_schedule : ℕ → Read (Option ℕ)
read_schedule flags =
    if has_flag flags flag_execute_at then (do t ← read_u64; return (some t)) else return none

-- `is_utf8` stands for the test of the core library's `str::from_utf8`.
module _ (is_utf8 : List ℕ → Bool) where
  unfoldable pub read_set_heater_target : Read Command
  read_set_heater_target = do
    heater ← read_string is_utf8
    target_milli_c ← read_i64
    return (Command.set_heater_target heater target_milli_c)

  unfoldable pub read_home : Read Command
  read_home = do
    axis ← read_string is_utf8
    rate_um_s ← read_u64
    return (Command.home axis rate_um_s)

  unfoldable pub read_move : Read Command
  read_move = do
    axis ← read_string is_utf8
    distance_um ← read_i64
    rate_um_s ← read_u64
    return (Command.move axis distance_um rate_um_s)

  unfoldable pub read_command : ℕ → Read Command
  read_command tag =
      if tag == tag_heartbeat
      then return Command.heartbeat
      else if tag == tag_set_heater_target
      then read_set_heater_target
      else if tag == tag_home
      then read_home
      else if tag == tag_move
      then read_move
      else fail (DecodeError.unknown_command_tag tag)

  unfoldable pub read_tagged : Read Command
  read_tagged = do tag ← read_u8; read_command tag

  -- The flags, the timestamp if there is one, and the command.
  unfoldable pub read_fields : Read CommandEnvelope
  read_fields = do
    flags ← read_u8
    refuse_if (unknown_bits flags known_flags) (DecodeError.invalid_flags flags)
    execute_at ← read_schedule flags
    command ← read_tagged
    return (record { execute_at = execute_at; command = command })

  -- `decode_payload`: the fields, and nothing behind them.
  unfoldable pub read_envelope : Read CommandEnvelope
  read_envelope = do
    envelope ← read_fields
    rest ← remaining
    refuse_if (not (rest == 0)) (DecodeError.trailing_payload_bytes rest)
    return envelope

unfoldable pub read_queue_status : Read QueueStatus
read_queue_status = do
  flags ← read_u8
  refuse_if (not (flags == 0)) (DecodeError.invalid_flags flags)
  capacity ← read_u16
  fill ← read_u16
  earliest_accepted ← read_u64
  latest_accepted ← read_u64
  state ← read_u8
  refuse_if (unknown_bits state queue_status_flag_underrun) (DecodeError.invalid_state_flags state)
  return (record {
    capacity = capacity;
    fill = fill;
    earliest_accepted = earliest_accepted;
    latest_accepted = latest_accepted;
    underrun = has_flag state queue_status_flag_underrun;
  })

unfoldable pub read_reserved_flags : Read (Unit {0})
read_reserved_flags = do
  flags ← read_u8
  refuse_if (not (flags == 0)) (DecodeError.invalid_flags flags)

unfoldable pub read_clock_response : Read ClockResponse
read_clock_response = do
  read_reserved_flags
  controller_receive ← read_u64
  controller_send ← read_u64
  return (record { controller_receive = controller_receive; controller_send = controller_send })

-- Run an action on a whole payload, and forget the reader.
abbrev pub run : {A : Type 0} → Read A → List ℕ → Result DecodeError A
run m payload = elim (m (new payload)) [ ok (a, r) ↦ ok a | err e ↦ err e ]
