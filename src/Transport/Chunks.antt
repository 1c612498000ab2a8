-- ===== src/Transport/Chunks.antt =====
-- crates/transport-adapter/src/lib.rs: a frame that arrives in two chunks.
use dryer.Base.{
  ℕ, ◌+◌, ◌≤◌, ◌<◌, ◌≡◌, refl, sym, ap, ◌∙◌, none, some, List, [], ◌∷◌, ◌++◌, ok, length, take,
  drop, length-take, length-drop, take-append-drop, append-nil, ltb_of_ge, arith,
}
use dryer.Base.Words.{saturating_add}
use dryer.Protocol.Layout.{frame_bytes}
use dryer.Transport.{FrameCodec}
use dryer.Transport.Codec.{with_capacity, feed, next_frame, magic_position}
use dryer.Transport.Partial.{next_frame-prefix}
use dryer.Transport.Resync.{next_frame-noise}

feed_lem :
    (codec : FrameCodec) (bytes : List ℕ)
    → length codec.buffer + length bytes ≤ codec.max_capacity
    → feed codec bytes ≡ (ok tt, record codec { buffer = codec.buffer ++ bytes })
unfolding feed
feed_lem codec bytes fits =
    rw
      (ltb_of_ge codec.max_capacity (saturating_add (length codec.buffer) (length bytes))
        (omega (arith, fits)))
      refl

abbrev pub holding : ℕ → List ℕ → FrameCodec
holding max_capacity bytes = record { buffer = bytes; max_capacity = max_capacity }

-- A frame that a codec has room for, fed to the empty codec in two chunks, cut at any byte: both chunks
-- are taken, nothing is handed out and nothing lost before the second, and then the frame is handed out,
-- which leaves the codec empty.
pub next_frame-feed :
    (message_type sequence : ℕ) (payload : List ℕ) (n max_capacity : ℕ)
    → 1 ≤ message_type
    → message_type ≤ 4
    → length payload ≤ 128
    → n < length (frame_bytes message_type sequence payload)
    → length (frame_bytes message_type sequence payload) ≤ max_capacity
    → let frame = frame_bytes message_type sequence payload in
      (feed (with_capacity max_capacity) (take n frame)
        ≡ (ok tt, holding max_capacity (take n frame)))
      × (next_frame (holding max_capacity (take n frame))
          ≡ some (none, holding max_capacity (take n frame)))
      × (feed (holding max_capacity (take n frame)) (drop n frame)
          ≡ (ok tt, holding max_capacity frame))
      × (next_frame (holding max_capacity frame) ≡ some (some frame, with_capacity max_capacity))
unfolding magic_position
next_frame-feed message_type sequence payload n max_capacity low high small inside room =
    let frame = frame_bytes message_type sequence payload in
    let first = length-take n frame in
    let second = length-drop n frame in
    (
      feed_lem (with_capacity max_capacity) (take n frame) (omega (arith, first, room)),
      next_frame-prefix message_type sequence payload low high small n max_capacity inside,
      feed_lem (holding max_capacity (take n frame)) (drop n frame)
            (omega (arith, first, second, inside, room))
          ∙ ap (λ bytes. (ok tt, holding max_capacity bytes)) (take-append-drop n frame),
      ap (λ bytes. next_frame (holding max_capacity bytes)) (sym (append-nil frame))
          ∙ next_frame-noise message_type sequence payload [] low high small [] max_capacity alone,
    )
  where
    alone : magic_position ([] ++ (b'D' ∷ [])) ≡ none
    alone = refl
