-- ===== src/Transport/Delivers.antt =====
-- crates/transport-adapter/src/lib.rs: soundness of the delimiter, round by round and whole.
use mathlib.Core.Path.{subst}
use dryer.Base.{
  ℕ, zero, suc, ◌≡◌, refl, sym, ap, Bool, true, false, inl, inr, not, Option, none, some, List, [],
  ◌∷◌, ◌++◌, ok, All, length, take, drop, take-append-drop, append_assoc, ◌==◌, ltb, ltb_false→le,
  Bool-cases, Option-cases, some-injective, if_either, arith,
}
use dryer.Base.Words.{IsByte}
use dryer.Protocol.{header_len, max_frame_len}
use dryer.Protocol.Decode.{check_header, check_frame}
use dryer.Protocol.Frames.{check_header_lem, check_frame_lem}
use dryer.Transport.{FrameCodec}
use dryer.Transport.Codec.{
  Round, returned, again, magic_position, possible_start, round_at_magic, round_of, scan, enough,
  next_frame, valid_header, frame_len_of, checksum_matches,
}
use dryer.Transport.Returns.{scan_returns, next_frame_of}
use dryer.Transport.Delimited.{Sound, IsFrame, delivered_IsFrame}

possible_start_suffix :
    (buffer : List ℕ) → (skipped : List ℕ) × (buffer ≡ skipped ++ possible_start buffer)
unfolding possible_start
possible_start_suffix [] = ([], refl)
possible_start_suffix (a ∷ []) = elim (Bool-cases (a == b'D')) [
  | inl may ↦ ([], rw may refl)
  | inr cannot ↦ (a ∷ [], rw cannot refl)
]
possible_start_suffix (a ∷ b ∷ rest) =
    let (skipped, e) = possible_start_suffix (b ∷ rest) in (a ∷ skipped, ap (◌∷◌ a) e)

dropped : (n : ℕ) (buffer : List ℕ) → (skipped : List ℕ) × (buffer ≡ skipped ++ drop n buffer)
dropped n buffer = (take n buffer, sym (take-append-drop n buffer))

round_at_magic-Sound :
    (buffer : List ℕ)
    → magic_position buffer ≡ some 0
    → All IsByte buffer
    → Sound buffer (round_at_magic buffer)
unfolding round_at_magic
round_at_magic-Sound buffer start bytes =
    if_either (Sound buffer) (ltb (length buffer) header_len) (λ _. ([], refl))
      (λ long.
        if_either (Sound buffer) (not (valid_header buffer)) (λ _. dropped 1 buffer)
          (λ valid.
            if_either (Sound buffer) (ltb max_frame_len (frame_len_of buffer))
              (λ _. dropped 1 buffer)
              (λ _.
                if_either (Sound buffer) (ltb (length buffer) (frame_len_of buffer))
                  (λ _. ([], refl))
                  (λ room.
                    if_either (Sound buffer) (not (checksum_matches buffer)) (λ _. dropped 1 buffer)
                      (λ sum. (
                        sym (take-append-drop (frame_len_of buffer) buffer),
                        delivered_IsFrame buffer start bytes (ltb_false→le _ _ long) (passed valid)
                            (ltb_false→le _ _ room) (passed sum),
                      ))))))
  where
    passed : {b : Bool} → not b ≡ false → b ≡ true
    passed {b = true} h = refl
    passed {b = false} h = cc

round_of-Sound :
    (buffer : List ℕ) → All IsByte buffer → Sound buffer (round_of (magic_position buffer) buffer)
unfolding round_of
round_of-Sound buffer bytes = elim (Option-cases (magic_position buffer)) [
  | inl nowhere ↦ rw nowhere (possible_start_suffix buffer)
  | inr (zero, found) ↦ rw found (round_at_magic-Sound buffer found bytes)
  | inr (suc pos, found) ↦ rw found (dropped (suc pos) buffer)
]

-- What a finished loop says of the buffer that it began with.
abbrev pub Delivered : List ℕ → Option (List ℕ) → List ℕ → Type 0
Delivered buffer none rest = (skipped : List ℕ) × (buffer ≡ skipped ++ rest)
Delivered buffer (some frame) rest =
    (skipped : List ℕ) × (buffer ≡ skipped ++ (frame ++ rest)) × IsFrame frame

behind :
    (buffer skipped rest : List ℕ) (frame : Option (List ℕ)) (last : List ℕ)
    → buffer ≡ skipped ++ rest
    → Delivered rest frame last
    → Delivered buffer frame last
behind buffer skipped rest none last e (more, d) =
    (skipped ++ more, rw (e, d) (sym (append_assoc skipped more last)))
behind buffer skipped rest (some frame) last e (more, d, ok_frame) =
    (skipped ++ more, rw (e, d) (sym (append_assoc skipped more (frame ++ last))), ok_frame)

suffix_bytes : (skipped rest : List ℕ) → All IsByte (skipped ++ rest) → All IsByte rest
suffix_bytes [] rest h = h
suffix_bytes (x ∷ skipped) rest (p, h) = suffix_bytes skipped rest h

scan-Delivered :
    (fuel : ℕ) (buffer : List ℕ) {frame : Option (List ℕ)} {rest : List ℕ}
    → All IsByte buffer
    → scan fuel buffer ≡ some (frame, rest)
    → Delivered buffer frame rest
unfolding scan
scan-Delivered zero buffer bytes h = cc
scan-Delivered (suc fuel) buffer {frame} {rest} bytes h =
    finish (round_of (magic_position buffer) buffer) refl (round_of-Sound buffer bytes)
      (λ later bytes' ends. scan-Delivered fuel later bytes' ends)
  where
    finish :
        (r : Round)
        → round_of (magic_position buffer) buffer ≡ r
        → Sound buffer r
        → ((later : List ℕ)
            → All IsByte later
            → scan fuel later ≡ some (frame, rest)
            → Delivered later frame rest)
        → Delivered buffer frame rest
    finish (returned none last) is sound next =
        subst (λ out. Delivered buffer out.0 out.1) (some-injective (rw (scan, is) at h)) sound
    finish (returned (some f) last) is sound next =
        subst (λ out. Delivered buffer out.0 out.1) (some-injective (rw (scan, is) at h))
          ([], sound.0, sound.1)
    finish (again last) is (skipped, e) next =
        behind buffer skipped last frame rest e
          (next last (suffix_bytes skipped last (rw e at bytes)) (rw (scan, is) at h))

-- `next_frame` returns on every buffer of bytes. What it hands out is the layout of a frame of type
-- 1 to 4, of at most 128 payload bytes and with the checksum of its contents, and it lies in the
-- buffer directly in front of the bytes that are kept: only bytes before it are lost. With no frame
-- handed out, what is kept is an end of the buffer.
pub next_frame-Delivered :
    (codec : FrameCodec)
    → All IsByte codec.buffer
    → (frame : Option (List ℕ)) × (codec' : FrameCodec) × (next_frame codec ≡ some (frame, codec'))
      × Delivered codec.buffer frame codec'.buffer
unfolding next_frame
next_frame-Delivered codec bytes =
    let (frame, rest, ends, _) = scan_returns (enough codec.buffer) codec.buffer (omega arith) in
    (
      frame,
      record codec { buffer = rest },
      next_frame_of codec ends,
      scan-Delivered (enough codec.buffer) codec.buffer bytes ends,
    )

-- Every frame in the layout passes the decoders' checks of its own type: the header with its
-- sequence number and payload length, then the length and the checksum.
pub check_header-IsFrame :
    (bytes : List ℕ)
    → (frame : IsFrame bytes)
    → (check_header bytes frame.message_type ≡ ok (frame.sequence, length frame.payload))
      × (check_frame bytes (length frame.payload) ≡ ok tt)
check_header-IsFrame bytes frame =
    subst
      (λ laid.
        (check_header laid frame.message_type ≡ ok (frame.sequence, length frame.payload))
        × (check_frame laid (length frame.payload) ≡ ok tt))
      (sym frame.laid_out)
      (
        check_header_lem frame.message_type frame.sequence frame.payload frame.numbered frame.small,
        check_frame_lem frame.message_type frame.sequence frame.payload frame.small,
      )
