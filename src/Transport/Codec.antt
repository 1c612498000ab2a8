-- ===== src/Transport/Codec.antt =====
-- crates/transport-adapter/src/lib.rs, `FrameCodec`: delimiting frames in a byte stream.
use dryer.Base.{
  ℕ, zero, suc, ◌+◌, ◌-◌, ◌==◌, Bool, not, ◌&&◌, Option, none, some, List, [], ◌∷◌, ◌++◌, Result,
  ok, err, length, take, drop, get_or, ltb, leb, if◌then◌else◌,
}
use dryer.Base.Words.{saturating_add, from_le_bytes}
use dryer.Protocol.{header_len, max_payload_len, max_frame_len, protocol_version}
use dryer.Protocol.Crc.{crc32c}
use dryer.Transport.{FrameCodec, FrameCodecError, buffer_overflow, default_codec_capacity}

abbrev pub with_capacity : ℕ → FrameCodec
with_capacity max_capacity = record { buffer = []; max_capacity = max_capacity }

abbrev pub new_codec : FrameCodec
new_codec = with_capacity default_codec_capacity

abbrev pub clear : FrameCodec → FrameCodec
clear codec = record codec { buffer = [] }

unfoldable pub feed : FrameCodec → List ℕ → Result FrameCodecError (Unit {0}) × FrameCodec
feed codec bytes =
    if ltb codec.max_capacity (saturating_add (length codec.buffer) (length bytes))
    then (err (buffer_overflow codec.max_capacity), codec)
    else (ok tt, record codec { buffer = codec.buffer ++ bytes })

abbrev pub moved_on : Option ℕ → Option ℕ
moved_on none = none
moved_on (some pos) = some (suc pos)

-- `buffer.windows(2).position(|win| win == MAGIC)`
unfoldable pub magic_position : List ℕ → Option ℕ
magic_position [] = none
magic_position (a ∷ []) = none
magic_position (a ∷ b ∷ rest) =
    let later : Option ℕ = moved_on (magic_position (b ∷ rest)) in
    if (a == b'D') && (b == b'R') then some 0 else later

-- What is kept where there is no magic: the last byte, if it might begin one.
unfoldable pub possible_start : List ℕ → List ℕ
possible_start [] = []
possible_start (a ∷ []) = if a == b'D' then a ∷ [] else []
possible_start (a ∷ b ∷ rest) = possible_start (b ∷ rest)

-- One round of the loop: it returns with the buffer that it leaves, or goes round again.
pub data Round : Type 0 where
  returned : (frame : Option (List ℕ)) (buffer : List ℕ) → Round
  again : (buffer : List ℕ) → Round

abbrev pub byte_at : List ℕ → ℕ → ℕ
byte_at buffer i = get_or buffer i 0

abbrev pub payload_len_of : List ℕ → ℕ
payload_len_of buffer = from_le_bytes (byte_at buffer 8 ∷ byte_at buffer 9 ∷ [])

abbrev pub valid_header : List ℕ → Bool
valid_header buffer =
    (byte_at buffer 2 == protocol_version)
    && (leb 1 (byte_at buffer 3) && leb (byte_at buffer 3) 4)
    && leb (payload_len_of buffer) max_payload_len

abbrev pub frame_len_of : List ℕ → ℕ
frame_len_of buffer = header_len + payload_len_of buffer + 4

abbrev pub checksum_matches : List ℕ → Bool
checksum_matches buffer =
    let payload_end = header_len + payload_len_of buffer in
    from_le_bytes (
      byte_at buffer payload_end
      ∷ byte_at buffer (payload_end + 1)
      ∷ byte_at buffer (payload_end + 2)
      ∷ byte_at buffer (payload_end + 3)
      ∷ [])
    == crc32c (take (payload_end - 2) (drop 2 buffer))

-- The round where the buffer starts with the magic.
unfoldable pub round_at_magic : List ℕ → Round
round_at_magic buffer =
    if ltb (length buffer) header_len
    then returned none buffer
    else if not (valid_header buffer)
    then again (drop 1 buffer)
    else if ltb max_frame_len (frame_len_of buffer)
    then again (drop 1 buffer)
    else if ltb (length buffer) (frame_len_of buffer)
    then returned none buffer
    else if not (checksum_matches buffer)
    then again (drop 1 buffer)
    else returned (some (take (frame_len_of buffer) buffer)) (drop (frame_len_of buffer) buffer)

unfoldable pub round_of : Option ℕ → List ℕ → Round
round_of none buffer = returned none (possible_start buffer)
round_of (some zero) buffer = round_at_magic buffer
round_of (some (suc pos)) buffer = again (drop (suc pos) buffer)

-- The loop, on fuel: nothing when the fuel has run out.
unfoldable pub scan : ℕ → List ℕ → Option (Option (List ℕ) × List ℕ)
scan zero buffer = none
scan (suc fuel) buffer = elim (round_of (magic_position buffer) buffer) [
  | returned frame rest ↦ some (frame, rest)
  | again rest ↦ scan fuel rest
]

-- Each round that goes again drops a byte, so this is fuel enough.
abbrev pub enough : List ℕ → ℕ
enough buffer = suc (length buffer)

-- `next_frame` has no error of its own: the answer is the frame, if there is one.
unfoldable pub next_frame : FrameCodec → Option (Option (List ℕ) × FrameCodec)
next_frame codec = elim (scan (enough codec.buffer) codec.buffer) [
  | none ↦ none
  | some (frame, rest) ↦ some (frame, record codec { buffer = rest })
]
