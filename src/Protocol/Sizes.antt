-- ===== src/Protocol/Sizes.antt =====
-- crates/control-protocol/src/lib.rs, `encoded_payload_len` and `encoded_string_len`.
use dryer.Base.{ℕ, ◌+◌, Option, none, some, Result, ok, err, length, ltb, if◌then◌else◌}
use dryer.Base.Outcome.{◌>>=◌}
use dryer.Protocol.{Command, CommandEnvelope, EncodeError, Str, max_string_len}

unfoldable pub encoded_string_len : Str → Result EncodeError ℕ
encoded_string_len value =
    if ltb max_string_len (length value)
    then err (EncodeError.string_too_long (length value) max_string_len)
    else ok (1 + length value)

unfoldable pub command_len : Command → Result EncodeError ℕ
unfolding encoded_string_len
command_len Command.heartbeat = ok 1
command_len (Command.set_heater_target heater target) = do
  len ← encoded_string_len heater
  ok (1 + len + 8)
command_len (Command.home axis rate) = do len ← encoded_string_len axis; ok (1 + len + 8)
command_len (Command.move axis distance rate) = do
  len ← encoded_string_len axis
  ok (1 + len + 8 + 8)

abbrev pub schedule_len : Option ℕ → ℕ
schedule_len none = 0
schedule_len (some t) = 8

unfoldable pub encoded_payload_len : CommandEnvelope → Result EncodeError ℕ
encoded_payload_len envelope = do
  len ← command_len envelope.command
  ok (1 + schedule_len envelope.execute_at + len)
