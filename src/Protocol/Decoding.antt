-- ===== src/Protocol/Decoding.antt =====
-- The payload decoders in front of the layout: each reads back the value that was laid out.
use dryer.Base.{
  ℕ, ◌-◌, ◌≤◌, ◌<◌, ◌^◌, ◌≡◌, refl, some, none, Option, Bool, true, false, List, [], ◌∷◌, ◌++◌, ok,
  length, arith,
}
use dryer.Base.Int.{ℤ, IsI64, to_bits64}
use dryer.Base.Words.{to_le_bytes}
use dryer.Protocol.{Command, CommandEnvelope, QueueStatus, ClockResponse, Str, max_string_len}
use dryer.Protocol.Consumes.{
  Consumes, Consumes-whole, >>=-Consumes, returning, refuse-Consumes, return-Consumes,
  read_u8-Consumes, read_u16-Consumes, read_u64-Consumes, read_i64-Consumes, read_string-Consumes,
}
use dryer.Protocol.Encode.{flags_of, state_flags}
use dryer.Protocol.Layout.{
  schedule_bytes, command_bytes, envelope_bytes, queue_status_bytes, clock_response_bytes,
  CommandFits, ScheduleFits, NameFits, StatusFits,
}
use dryer.Protocol.Payload.{
  read_schedule, read_set_heater_target, read_home, read_move, read_command, read_tagged,
  read_fields, has_flag, read_envelope, read_queue_status, read_reserved_flags, read_clock_response,
  run, unknown_bits,
}
use dryer.Protocol.Reader.{Read, ◌>>=◌}

read_schedule-Consumes :
    (execute_at : Option ℕ)
    → ScheduleFits execute_at
    → Consumes (read_schedule (flags_of execute_at)) (schedule_bytes execute_at) execute_at
unfolding read_schedule
read_schedule-Consumes none h = return-Consumes none
read_schedule-Consumes (some t) h = returning _ (read_u64-Consumes t h) (return-Consumes (some t))

module _ (is_utf8 : List ℕ → Bool) where
  read_set_heater_target-Consumes :
      (heater : Str) (target : ℤ)
      → length heater ≤ max_string_len
      → is_utf8 heater ≡ true
      → IsI64 target
      → Consumes
          (read_set_heater_target is_utf8)
          ((length heater ∷ heater) ++ to_le_bytes 8 (to_bits64 target))
          (Command.set_heater_target heater target)
  unfolding read_set_heater_target
  read_set_heater_target-Consumes heater target short valid fits =
      >>=-Consumes _ (read_string-Consumes is_utf8 heater short valid)
        (returning _ (read_i64-Consumes target fits) (return-Consumes _))

  read_home-Consumes :
      (axis : Str) (rate : ℕ)
      → length axis ≤ max_string_len
      → is_utf8 axis ≡ true
      → rate < 2 ^ 64
      → Consumes
          (read_home is_utf8)
          ((length axis ∷ axis) ++ to_le_bytes 8 rate)
          (Command.home axis rate)
  unfolding read_home
  read_home-Consumes axis rate short valid fits =
      >>=-Consumes _ (read_string-Consumes is_utf8 axis short valid)
        (returning _ (read_u64-Consumes rate fits) (return-Consumes _))

  read_move-Consumes :
      (axis : Str) (distance : ℤ) (rate : ℕ)
      → length axis ≤ max_string_len
      → is_utf8 axis ≡ true
      → IsI64 distance
      → rate < 2 ^ 64
      → Consumes
          (read_move is_utf8)
          ((length axis ∷ axis) ++ (to_le_bytes 8 (to_bits64 distance) ++ to_le_bytes 8 rate))
          (Command.move axis distance rate)
  unfolding read_move
  read_move-Consumes axis distance rate short valid far fits =
      >>=-Consumes _ (read_string-Consumes is_utf8 axis short valid) (
        >>=-Consumes _ (read_i64-Consumes distance far)
          (returning _ (read_u64-Consumes rate fits) (return-Consumes _)))

  -- A tag and the fields behind it.
  read_tagged-Consumes :
      (command : Command)
      → NameFits command
      → CommandFits is_utf8 command
      → Consumes (read_tagged is_utf8) (command_bytes command) command
  unfolding read_tagged read_command
  read_tagged-Consumes Command.heartbeat n h =
      >>=-Consumes _ (read_u8-Consumes 0) (return-Consumes _)
  read_tagged-Consumes (Command.set_heater_target heater target) n (valid, fits) =
      >>=-Consumes _ (read_u8-Consumes 1)
        (read_set_heater_target-Consumes heater target n valid fits)
  read_tagged-Consumes (Command.home axis rate) n (valid, fits) =
      >>=-Consumes _ (read_u8-Consumes 2) (read_home-Consumes axis rate n valid fits)
  read_tagged-Consumes (Command.move axis distance rate) n (valid, far, fits) =
      >>=-Consumes _ (read_u8-Consumes 3) (read_move-Consumes axis distance rate n valid far fits)

known_bits : (execute_at : Option ℕ) → unknown_bits (flags_of execute_at) 1 ≡ false
known_bits none = refl
known_bits (some t) = refl

module _ (is_utf8 : List ℕ → Bool) where
  read_fields-Consumes :
      (envelope : CommandEnvelope)
      → NameFits envelope.command
      → CommandFits is_utf8 envelope.command
      → ScheduleFits envelope.execute_at
      → Consumes (read_fields is_utf8) (envelope_bytes envelope) envelope
  unfolding read_fields
  read_fields-Consumes envelope n h t =
      >>=-Consumes _ (read_u8-Consumes (flags_of envelope.execute_at)) (
        refuse-Consumes _ _ (known_bits envelope.execute_at) (
          >>=-Consumes _ (read_schedule-Consumes envelope.execute_at t)
            (returning _ (read_tagged-Consumes is_utf8 envelope.command n h) (return-Consumes _))))

  -- The whole payload decodes to the envelope that was laid out.
  pub read_envelope_lem :
      (envelope : CommandEnvelope)
      → NameFits envelope.command
      → CommandFits is_utf8 envelope.command
      → ScheduleFits envelope.execute_at
      → length (envelope_bytes envelope) ≤ 128
      → run (read_envelope is_utf8) (envelope_bytes envelope) ≡ ok envelope
  unfolding read_envelope
  read_envelope_lem envelope n h t small =
      rw (Consumes-whole (read_fields-Consumes envelope n h t) small, run, ◌>>=◌)
        (rw none_left refl)
    where
      none_left : length (envelope_bytes envelope) - length (envelope_bytes envelope) ≡ 0
      none_left = omega arith

flags_test : (underrun : Bool) → has_flag (state_flags underrun) 1 ≡ underrun
flags_test true = refl
flags_test false = refl

known_state : (underrun : Bool) → unknown_bits (state_flags underrun) 1 ≡ false
known_state true = refl
known_state false = refl

read_queue_status-Consumes :
    (status : QueueStatus)
    → StatusFits status
    → Consumes read_queue_status (queue_status_bytes status) status
unfolding read_queue_status
read_queue_status-Consumes status fits = >>=-Consumes _ (read_u8-Consumes 0) (
    >>=-Consumes _ (read_u16-Consumes status.capacity fits.capacity_fits) (
      >>=-Consumes _ (read_u16-Consumes status.fill fits.fill_fits) (
        >>=-Consumes _ (read_u64-Consumes status.earliest_accepted fits.earliest_fits) (
          >>=-Consumes _ (read_u64-Consumes status.latest_accepted fits.latest_fits) (
            returning _ (read_u8-Consumes (state_flags status.underrun)) (
              refuse-Consumes _ _ (known_state status.underrun)
                (rw (flags_test status.underrun) (return-Consumes _))))))))

pub run_lem :
    {A : Type 0} {m : Read A} {bytes : List ℕ} {a : A}
    → Consumes m bytes a
    → length bytes ≤ 128
    → run m bytes ≡ ok a
run_lem c small = rw (Consumes-whole c small, run)

pub read_queue_status_lem :
    (status : QueueStatus)
    → StatusFits status
    → run read_queue_status (queue_status_bytes status) ≡ ok status
read_queue_status_lem status fits = run_lem (read_queue_status-Consumes status fits) (omega arith)

pub read_reserved_flags_lem : run read_reserved_flags (0 ∷ []) ≡ ok tt
unfolding read_reserved_flags
read_reserved_flags_lem =
    run_lem (returning _ (read_u8-Consumes 0) (return-Consumes tt)) (omega arith)

pub read_clock_response_lem :
    (response : ClockResponse)
    → response.controller_receive < 2 ^ 64
    → response.controller_send < 2 ^ 64
    → run read_clock_response (clock_response_bytes response) ≡ ok response
unfolding read_clock_response read_reserved_flags
read_clock_response_lem response receive send =
    run_lem
      (>>=-Consumes _ (returning _ (read_u8-Consumes 0) (return-Consumes tt)) (
        >>=-Consumes _ (read_u64-Consumes response.controller_receive receive)
          (returning _ (read_u64-Consumes response.controller_send send) (return-Consumes _))))
      (omega arith)
