-- ===== src/Transport/Resync.antt =====
-- crates/transport-adapter/src/lib.rs: a frame in the stream is found, also behind noise.
use mathlib.Core.Path.{subst}
use dryer.Base.{
  ℕ, zero, suc, ◌+◌, ◌-◌, ◌≤◌, ◌≡◌, refl, sym, ap, ◌∙◌, true, inl, inr, none, some, List, [], ◌∷◌,
  ◌++◌, length, take, drop, length-append, take-append, drop-append, append_assoc, ltb_of_ge,
  leb_of_le, ==_iff, Option-cases, arith,
}
use dryer.Base.Words.{to_le_bytes, from_le_bytes, from_le_bytes-to_le_bytes}
use dryer.Protocol.Crc.{crc32c, crc32c-lt}
use dryer.Protocol.Frames.{length-frame_bytes}
use dryer.Protocol.Layout.{covered, frame_bytes}
use dryer.Transport.Codec.{
  returned, again, magic_position, round_at_magic, round_of, scan, next_frame, valid_header,
  frame_len_of, payload_len_of, checksum_matches, byte_at,
}
use dryer.Transport.Returns.{scan_returned, scan_again, next_frame_of}
use dryer.Transport.Delimited.{stored}

-- A frame at the start of the buffer, and what comes after it.
module _ (message_type sequence : ℕ) (payload rest : List ℕ) (low : 1 ≤ message_type)
    (high : message_type ≤ 4) (small : length payload ≤ 128) where
  abbrev frame : List ℕ
  frame = frame_bytes message_type sequence payload

  payload_len : payload_len_of (frame ++ rest) ≡ length payload
  payload_len = from_le_bytes-to_le_bytes 2 (length payload) (omega (arith, small))

  header_valid : valid_header (frame ++ rest) ≡ true
  header_valid =
      rw
        (
          leb_of_le 1 message_type low,
          leb_of_le message_type 4 high,
          payload_len,
          leb_of_le _ 128 small,
        )
        refl

  abbrev checksum : ℕ
  checksum = crc32c (covered message_type sequence payload)

  tail_is :
      take 4 (drop (length payload) ((payload ++ to_le_bytes 4 checksum) ++ rest))
      ≡ to_le_bytes 4 checksum
  tail_is =
      rw
        (
          append_assoc payload (to_le_bytes 4 checksum) rest,
          drop-append payload (to_le_bytes 4 checksum ++ rest),
        )
        (take-append (to_le_bytes 4 checksum) rest)

  summed :
      take (10 + length payload - 2) (drop 2 (frame ++ rest))
      ≡ covered message_type sequence payload
  summed = rw out (
      ap (λ xs. take (length (covered message_type sequence payload)) xs)
        (append_assoc (covered message_type sequence payload) (to_le_bytes 4 checksum) rest)
      ∙ take-append (covered message_type sequence payload) (to_le_bytes 4 checksum ++ rest))
    where
      out : 10 + length payload - 2 ≡ length (covered message_type sequence payload)
      out = omega arith

  checksum_read :
      from_le_bytes (
        byte_at (frame ++ rest) (10 + length payload)
        ∷ byte_at (frame ++ rest) (10 + length payload + 1)
        ∷ byte_at (frame ++ rest) (10 + length payload + 2)
        ∷ byte_at (frame ++ rest) (10 + length payload + 3)
        ∷ [])
      ≡ checksum
  checksum_read =
      ap from_le_bytes (
        stored b'D' b'R' 1 message_type _ _ _ _ _ _ ((payload ++ to_le_bytes 4 checksum) ++ rest)
          (length payload) room
        ∙ tail_is)
      ∙ from_le_bytes-to_le_bytes 4 checksum
          (omega (arith, crc32c-lt (covered message_type sequence payload)))
    where
      room : length payload + 4 ≤ length ((payload ++ to_le_bytes 4 checksum) ++ rest)
      room = omega (
        arith,
        length-append (payload ++ to_le_bytes 4 checksum) rest,
        length-append payload (to_le_bytes 4 checksum),
      )

  checksum_passes : checksum_matches (frame ++ rest) ≡ true
  checksum_passes = rw payload_len ((==_iff _ _).1 (checksum_read ∙ sym (ap crc32c summed)))

  frame_len : frame_len_of (frame ++ rest) ≡ length frame
  frame_len = rw payload_len (omega (arith, length-frame_bytes message_type sequence payload))

  pub round_at_magic-frame : round_at_magic (frame ++ rest) ≡ returned (some frame) rest
  unfolding round_at_magic
  round_at_magic-frame =
      rw
        (
          ltb_of_ge (length (frame ++ rest)) 10 (omega (arith, size, long)),
          header_valid,
          frame_len,
          ltb_of_ge 142 (length frame) (omega (arith, size, small)),
          ltb_of_ge (length (frame ++ rest)) (length frame) (omega (arith, long)),
          checksum_passes,
          take-append frame rest,
          drop-append frame rest,
        )
        refl
    where
      size : length frame ≡ 14 + length payload
      size = length-frame_bytes message_type sequence payload

      long : length (frame ++ rest) ≡ length frame + length rest
      long = length-append frame rest

-- The first magic is where the noise ends: the noise has none, nor a part of one that the frame's
-- first byte completes.
magic_after :
    (noise rest : List ℕ)
    → magic_position (noise ++ (b'D' ∷ [])) ≡ none
    → magic_position (noise ++ (b'D' ∷ b'R' ∷ rest)) ≡ some (length noise)
unfolding magic_position
magic_after [] rest h = refl
magic_after (a ∷ []) rest h = ground arith
magic_after (a ∷ b ∷ noise) rest h =
    elim (Option-cases (magic_position (b ∷ (noise ++ (b'D' ∷ []))))) [
      | inl nowhere ↦ ground (arith, h, nowhere, magic_after (b ∷ noise) rest nowhere)
      | inr (p, found) ↦ absurd (ground (arith, h, found))
    ]

module _ (message_type sequence : ℕ) (payload rest : List ℕ) (low : 1 ≤ message_type)
    (high : message_type ≤ 4) (small : length payload ≤ 128) where
  abbrev whole : List ℕ
  whole = frame_bytes message_type sequence payload ++ rest

  round_of-frame :
      round_of (magic_position whole) whole
      ≡ returned (some (frame_bytes message_type sequence payload)) rest
  unfolding round_of magic_position
  round_of-frame = round_at_magic-frame message_type sequence payload rest low high small

  pub scan-frame :
      (fuel : ℕ)
      → scan (suc fuel) whole ≡ some (some (frame_bytes message_type sequence payload), rest)
  scan-frame fuel = scan_returned fuel whole round_of-frame

  round_of-noise :
      (a : ℕ) (noise : List ℕ)
      → magic_position ((a ∷ noise) ++ (b'D' ∷ [])) ≡ none
      → round_of (magic_position ((a ∷ noise) ++ whole)) ((a ∷ noise) ++ whole) ≡ again whole
  unfolding round_of
  round_of-noise a noise h =
      subst (λ found. round_of found ((a ∷ noise) ++ whole) ≡ again whole)
        (sym (magic_after (a ∷ noise) (drop 2 whole) h)) (ap again (drop-append (a ∷ noise) whole))

  scan-noise :
      (fuel : ℕ) (noise : List ℕ)
      → magic_position (noise ++ (b'D' ∷ [])) ≡ none
      → length noise ≤ fuel
      → scan (suc fuel) (noise ++ whole)
        ≡ some (some (frame_bytes message_type sequence payload), rest)
  scan-noise fuel [] h enough_fuel = scan-frame fuel
  scan-noise zero (a ∷ noise) h enough_fuel = absurd (omega arith)
  scan-noise (suc fuel) (a ∷ noise) h enough_fuel =
      scan_again (suc fuel) ((a ∷ noise) ++ whole) (round_of-noise a noise h) ∙ scan-frame fuel

  -- A frame of a known type and a legal size is the next that the codec hands out, with all that
  -- follows it kept, also behind noise: any bytes that hold no magic and complete none with the
  -- frame's first byte.
  pub next_frame-noise :
      (noise : List ℕ) (max_capacity : ℕ)
      → magic_position (noise ++ (b'D' ∷ [])) ≡ none
      → next_frame (record {
        buffer = noise ++ (frame_bytes message_type sequence payload ++ rest);
        max_capacity = max_capacity;
      })
        ≡ some (
          some (frame_bytes message_type sequence payload),
          record { buffer = rest; max_capacity = max_capacity },
        )
  next_frame-noise noise max_capacity h =
      next_frame_of _
        (scan-noise (length (noise ++ whole)) noise h (omega (arith, length-append noise whole)))
