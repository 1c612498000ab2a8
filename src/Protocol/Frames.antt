-- ===== src/Protocol/Frames.antt =====
-- The decoders' checks on a frame in the layout: all pass, and the payload comes out.
use mathlib.Core.Path.{subst, subst₂}
use dryer.Base.{
  ℕ, ◌+◌, ◌≤◌, ◌<◌, ◌^◌, ◌≡◌, refl, some, List, [], ◌++◌, ok, length, slice, min, ltb_of_ge, ==_iff,
  length-append, arith,
}
use dryer.Base.Words.{usize_max, to_le_bytes, from_le_bytes-to_le_bytes}
use dryer.Protocol.{magic}
use dryer.Protocol.Crc.{crc32c, crc32c-lt}
use dryer.Protocol.Decode.{
  require_len, read_u32_at, check_header, check_frame, payload_of, decode_fixed_header,
}
use dryer.Protocol.Encodes.{slice_middle, header}
use dryer.Protocol.Layout.{covered, frame_bytes}

pub length-frame_bytes :
    (message_type sequence : ℕ) (payload : List ℕ)
    → length (frame_bytes message_type sequence payload) ≡ 14 + length payload
length-frame_bytes message_type sequence payload =
    let crc = to_le_bytes 4 (crc32c (covered message_type sequence payload)) in
    omega (arith, length-append payload crc)

require_len_lem :
    (input : List ℕ) (needed : ℕ) → needed ≤ length input → require_len input needed ≡ ok tt
unfolding require_len
require_len_lem input needed h = rw (ltb_of_ge (length input) needed h)

pub check_header_lem :
    (message_type sequence : ℕ) (payload : List ℕ)
    → sequence < 2 ^ 32
    → length payload ≤ 128
    → check_header (frame_bytes message_type sequence payload) message_type
      ≡ ok (sequence, length payload)
unfolding check_header
check_header_lem message_type sequence payload numbered small =
    let size = length-frame_bytes message_type sequence payload in
    rw
      (
        require_len_lem (frame_bytes message_type sequence payload) 2 (omega (arith, size)),
        require_len_lem (frame_bytes message_type sequence payload) 10 (omega (arith, size)),
        (==_iff message_type message_type).1 refl,
        from_le_bytes-to_le_bytes 4 sequence numbered,
        from_le_bytes-to_le_bytes 2 (length payload) (omega arith),
        ltb_of_ge 128 (length payload) small,
      )
      refl

-- The four bytes at the end of the frame.
checksum_slice :
    (message_type sequence : ℕ) (payload : List ℕ)
    → length payload ≤ 128
    → let crc = to_le_bytes 4 (crc32c (covered message_type sequence payload)) in
      slice
        (frame_bytes message_type sequence payload)
        (10 + length payload)
        (min (10 + length payload + 4) usize_max)
      ≡ some crc
checksum_slice message_type sequence payload small =
    subst₂
      (λ from to.
        slice (frame_bytes message_type sequence payload) from to
        ≡ some (to_le_bytes 4 (crc32c (covered message_type sequence payload))))
      start end
      (slice_middle (header message_type sequence (length payload) ++ payload)
        (to_le_bytes 4 (crc32c (covered message_type sequence payload))) [])
  where
    start : length (header message_type sequence (length payload) ++ payload) ≡ 10 + length payload
    start = omega arith

    end :
        length (header message_type sequence (length payload) ++ payload) + 4
        ≡ min (10 + length payload + 4) usize_max
    end = omega arith

slice-covered :
    (message_type sequence : ℕ) (payload : List ℕ)
    → slice (frame_bytes message_type sequence payload) 2 (10 + length payload)
      ≡ some (covered message_type sequence payload)
slice-covered message_type sequence payload =
    subst
      (λ n.
        slice (frame_bytes message_type sequence payload) 2 n
        ≡ some (covered message_type sequence payload))
      end
      (slice_middle magic (covered message_type sequence payload)
        (to_le_bytes 4 (crc32c (covered message_type sequence payload))))
  where
    end : 2 + length (covered message_type sequence payload) ≡ 10 + length payload
    end = omega arith

payload_slice :
    (message_type sequence : ℕ) (payload : List ℕ)
    → slice (frame_bytes message_type sequence payload) 10 (10 + length payload) ≡ some payload
payload_slice message_type sequence payload =
    slice_middle (header message_type sequence (length payload)) payload
      (to_le_bytes 4 (crc32c (covered message_type sequence payload)))

pub check_frame_lem :
    (message_type sequence : ℕ) (payload : List ℕ)
    → length payload ≤ 128
    → check_frame (frame_bytes message_type sequence payload) (length payload) ≡ ok tt
unfolding check_frame read_u32_at
check_frame_lem message_type sequence payload small =
    let frame = frame_bytes message_type sequence payload in
    let size = length-frame_bytes message_type sequence payload in
    let crc = crc32c (covered message_type sequence payload) in
    rw
      (
        require_len_lem frame (10 + length payload + 4) (omega (arith, size)),
        ltb_of_ge (10 + length payload + 4) (length frame) (omega (arith, size)),
        checksum_slice message_type sequence payload small,
        slice-covered message_type sequence payload,
        from_le_bytes-to_le_bytes 4 crc (crc32c-lt (covered message_type sequence payload)),
        (==_iff crc crc).1 refl,
      )
      refl

pub payload_of_lem :
    (message_type sequence : ℕ) (payload : List ℕ)
    → payload_of (frame_bytes message_type sequence payload) (length payload) ≡ ok payload
unfolding payload_of
payload_of_lem message_type sequence payload =
    rw (payload_slice message_type sequence payload, payload_of) refl

pub decode_fixed_header_lem :
    (message_type sequence : ℕ) (payload : List ℕ)
    → sequence < 2 ^ 32
    → length payload ≤ 128
    → decode_fixed_header (frame_bytes message_type sequence payload) message_type (length payload)
      ≡ ok (sequence, payload)
unfolding decode_fixed_header
decode_fixed_header_lem message_type sequence payload numbered small =
    rw
      (
        check_header_lem message_type sequence payload numbered small,
        check_frame_lem message_type sequence payload small,
        (==_iff (length payload) (length payload)).1 refl,
        payload_of_lem message_type sequence payload,
      )
      refl
