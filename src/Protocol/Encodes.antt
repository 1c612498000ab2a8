-- ===== src/Protocol/Encodes.antt =====
-- The encoders write exactly the layout, and leave the bytes behind the frame as they were.
use dryer.Base.{
  ℕ, ◌+◌, ◌≤◌, ◌≡◌, ◌∙◌, sym, ap, suc, none, some, Option, List, [], ◌∷◌, ◌++◌, ok, append-nil,
  length, drop, slice, length-append, length-drop, drop-drop, take-append, arith,
}
use mathlib.Core.Path.{subst}
use dryer.Base.Int.{to_bits64}
use dryer.Base.Words.{usize_max, to_le_bytes}
use dryer.Protocol.{Command, CommandEnvelope, QueueStatus, magic, protocol_version}
use dryer.Protocol.Crc.{crc32c}
use dryer.Protocol.Writer.{Write, ◌>>=◌, write, new}
use dryer.Protocol.Emits.{
  at, slice-append, Emits, write-Emits, >>-Emits, write_u8-Emits, write_string-Emits,
}
use dryer.Protocol.Encode.{
  write_header, write_checksum, write_schedule, encode_command_body, encode_payload, finish,
  write_queue_status,
}
use dryer.Protocol.Layout.{
  covered, frame_bytes, schedule_bytes, command_bytes, envelope_bytes, queue_status_bytes, NameFits,
}

abbrev pub header : ℕ → ℕ → ℕ → List ℕ
header message_type sequence payload_len =
    magic
    ++ (protocol_version ∷ (message_type ∷ (to_le_bytes 4 sequence ++ to_le_bytes 2 payload_len)))

pub write_header-Emits :
    (message_type sequence payload_len : ℕ)
    → Emits
        (write_header message_type sequence payload_len)
        (header message_type sequence payload_len)
unfolding write_header
write_header-Emits message_type sequence payload_len = >>-Emits (write-Emits magic) (
    >>-Emits (write_u8-Emits protocol_version) (
      >>-Emits (write_u8-Emits message_type) (
        >>-Emits (write-Emits (to_le_bytes 4 sequence)) (write-Emits (to_le_bytes 2 payload_len)))))

pub encode_command_body-Emits :
    (command : Command)
    → NameFits command
    → Emits (encode_command_body command) (command_bytes command)
unfolding encode_command_body
encode_command_body-Emits Command.heartbeat h = write_u8-Emits _
encode_command_body-Emits (Command.set_heater_target heater target) h =
    >>-Emits (write_u8-Emits _) (>>-Emits (write_string-Emits heater (omega arith)) (write-Emits _))
encode_command_body-Emits (Command.home axis rate) h =
    >>-Emits (write_u8-Emits _) (>>-Emits (write_string-Emits axis (omega arith)) (write-Emits _))
encode_command_body-Emits (Command.move axis distance rate) h = >>-Emits (write_u8-Emits _) (
    >>-Emits (write_string-Emits axis (omega arith))
      (>>-Emits (write-Emits (to_le_bytes 8 (to_bits64 distance))) (write-Emits _)))

write_schedule-Emits :
    (execute_at : Option ℕ) → Emits (write_schedule execute_at) (schedule_bytes execute_at)
unfolding write_schedule
write_schedule-Emits none = record {
  emits = λ done rest room small. ap (λ d. (ok tt, at d rest)) (sym (append-nil done));
}
write_schedule-Emits (some execute_at) = record {
  emits = Emits.emits (write-Emits (to_le_bytes 8 execute_at));
}

pub encode_payload-Emits :
    (envelope : CommandEnvelope)
    → NameFits envelope.command
    → Emits (encode_payload envelope) (envelope_bytes envelope)
unfolding encode_payload
encode_payload-Emits envelope h = >>-Emits (write_u8-Emits _) (
    >>-Emits (write_schedule-Emits envelope.execute_at)
      (encode_command_body-Emits envelope.command h))

pub write_queue_status-Emits :
    (status : QueueStatus) → Emits (write_queue_status status) (queue_status_bytes status)
unfolding write_queue_status
write_queue_status-Emits status = >>-Emits (write_u8-Emits 0) (
    >>-Emits (write-Emits (to_le_bytes 2 status.capacity)) (
      >>-Emits (write-Emits (to_le_bytes 2 status.fill)) (
        >>-Emits (write-Emits (to_le_bytes 8 status.earliest_accepted))
          (>>-Emits (write-Emits (to_le_bytes 8 status.latest_accepted)) (write_u8-Emits _)))))

pub slice_middle :
    (a b c : List ℕ) → slice (a ++ (b ++ c)) (length a) (length a + length b) ≡ some b
slice_middle a b c =
    slice-append (length b) a (b ++ c) (omega (arith, length-append b c))
    ∙ ap some (take-append b c)

slice-covered :
    (bytes rest : List ℕ)
    → slice (magic ++ (bytes ++ rest)) 2 (suc (suc (length bytes))) ≡ some bytes
slice-covered bytes rest =
    subst (λ k. slice (magic ++ (bytes ++ rest)) 2 k ≡ some bytes) end
      (slice_middle magic bytes rest)
  where
    end : 2 + length bytes ≡ suc (suc (length bytes))
    end = omega arith

-- The checksum goes behind the covered bytes.
write_checksum_lem :
    (needed available : ℕ) (bytes rest : List ℕ)
    → 4 ≤ length rest
    → 2 + length bytes + 4 ≤ usize_max
    → write_checksum needed available (at (magic ++ bytes) rest) ≡ (
      ok (2 + length bytes + 4),
      at (magic ++ (bytes ++ to_le_bytes 4 (crc32c bytes))) (drop 4 rest),
    )
unfolding write_checksum
write_checksum_lem needed available bytes rest room small =
    rw (slice-covered bytes rest, write_checksum)
      (rw (written.emits (magic ++ bytes) rest room (omega arith))
        (ap (λ n. (ok n, at (magic ++ (bytes ++ to_le_bytes 4 (crc32c bytes))) (drop 4 rest))) end))
  where
    end : length (magic ++ (bytes ++ to_le_bytes 4 (crc32c bytes))) ≡ 2 + length bytes + 4
    end = omega (arith, length-append bytes (to_le_bytes 4 (crc32c bytes)))

    written : Emits (write (to_le_bytes 4 (crc32c bytes))) (to_le_bytes 4 (crc32c bytes))
    written = write-Emits (to_le_bytes 4 (crc32c bytes))

-- A header, a payload and a checksum: the layout of a whole frame at the front of the buffer.
pub frame-Emits :
    {m : Write (Unit {0})} {payload : List ℕ}
    → Emits m payload
    → (message_type sequence needed available : ℕ) (output : List ℕ) → length payload ≤ 128
    → 14 + length payload ≤ length output
    → finish (
        (write_header message_type sequence (length payload) >>= λ _.
        m >>= λ _. write_checksum needed available)
          (new output))
      ≡ (
        ok (14 + length payload),
        frame_bytes message_type sequence payload ++ drop (14 + length payload) output,
      )
frame-Emits {m} {payload} hm message_type sequence needed available output small room =
    rw (head, body)
      (rw tail (
        rw left (
          ap
            (λ n. (
              ok n,
              frame_bytes message_type sequence payload ++ drop (14 + length payload) output,
            ))
            size)))
  where
    total : 10 + length payload + 4 ≡ 14 + length payload
    total = omega arith

    left : drop 4 (drop (length payload) (drop 10 output)) ≡ drop (14 + length payload) output
    left =
        ap (drop 4) (drop-drop 10 (length payload) output)
        ∙ drop-drop (10 + length payload) 4 output
        ∙ ap (λ n. drop n output) total

    size : 2 + length (covered message_type sequence payload) + 4 ≡ 14 + length payload
    size = omega arith

    open_bytes : List ℕ
    open_bytes = header message_type sequence (length payload)

    head :
        write_header message_type sequence (length payload) (new output)
        ≡ (ok tt, at open_bytes (drop 10 output))
    head =
        (write_header-Emits message_type sequence (length payload)).emits [] output (omega arith)
          (omega arith)

    body :
        m (at open_bytes (drop 10 output))
        ≡ (ok tt, at (open_bytes ++ payload) (drop (length payload) (drop 10 output)))
    body = hm.emits open_bytes (drop 10 output) (omega (arith, length-drop 10 output)) (omega arith)

    tail :
        write_checksum needed available
          (at (open_bytes ++ payload) (drop (length payload) (drop 10 output)))
        ≡ (
          ok (2 + length (covered message_type sequence payload) + 4),
          at
              (frame_bytes message_type sequence payload)
              (drop 4 (drop (length payload) (drop 10 output))),
        )
    tail =
        write_checksum_lem needed available (covered message_type sequence payload)
          (drop (length payload) (drop 10 output))
          (omega (arith, length-drop 10 output, length-drop (length payload) (drop 10 output)))
          (omega arith)
