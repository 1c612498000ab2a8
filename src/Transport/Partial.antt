-- ===== src/Transport/Partial.antt =====
-- crates/transport-adapter/src/lib.rs: a frame that has not arrived in full, and `feed`.
use mathlib.Core.Path.{subst}
use dryer.Base.{
  ℕ, zero, suc, ◌+◌, ◌-◌, ◌≤◌, ◌<◌, ◌≡◌, refl, inl, inr, none, some, List, ◌++◌, Result, ok, err,
  length, take, length-take, length-append, ltb, ltb_of_ge, lt→ltb, leb_of_le, ltb_false→le, ltb→lt,
  Bool-cases, if_either, arith,
}
use dryer.Base.Words.{from_le_bytes-to_le_bytes, usize_max, saturating_add}
use dryer.Protocol.Frames.{length-frame_bytes}
use dryer.Protocol.Layout.{frame_bytes}
use dryer.Transport.{FrameCodec, buffer_overflow}
use dryer.Transport.Codec.{
  returned, magic_position, possible_start, round_at_magic, round_of, feed, next_frame,
  payload_len_of,
}
use dryer.Transport.Returns.{scan_returned, next_frame_of}

-- The round hands out nothing and keeps the buffer as it is.
abbrev pub Waits : List ℕ → Type 0
Waits buffer = round_of (magic_position buffer) buffer ≡ returned none buffer

module _ (message_type sequence : ℕ) (payload : List ℕ) (low : 1 ≤ message_type)
    (high : message_type ≤ 4) (small : length payload ≤ 128) where
  abbrev frame : List ℕ
  frame = frame_bytes message_type sequence payload

  short-Waits : (m : ℕ) → m < 8 → Waits (take (suc (suc m)) frame)
  unfolding round_of magic_position round_at_magic
  short-Waits m h =
      rw
        (lt→ltb (length (take (suc (suc m)) frame)) 10
          (omega (arith, length-take (suc (suc m)) frame)))
        refl

  long-Waits :
      (m : ℕ)
      → m + 10 < length frame
      → Waits (take (suc (suc (suc (suc (suc (suc (suc (suc (suc (suc m)))))))))) frame)
  unfolding round_of magic_position round_at_magic
  long-Waits m h =
      let buffer = take (suc (suc (suc (suc (suc (suc (suc (suc (suc (suc m)))))))))) frame in
      let size : length buffer ≡ m + 10 = omega (
        arith,
        h,
        length-take (suc (suc (suc (suc (suc (suc (suc (suc (suc (suc m)))))))))) frame,
      ) in
      let whole_size = length-frame_bytes message_type sequence payload in
      let says : payload_len_of buffer ≡ length payload =
        from_le_bytes-to_le_bytes 2 (length payload) (omega (arith, small)) in
      rw
        (
          ltb_of_ge (length buffer) 10 (omega (arith, size)),
          says,
          leb_of_le 1 message_type low,
          leb_of_le message_type 4 high,
          leb_of_le (length payload) 128 small,
          ltb_of_ge 142 (10 + length payload + 4) (omega (arith, small)),
          lt→ltb (length buffer) (10 + length payload + 4) (omega (arith, size, h, whole_size)),
        )
        refl

  pub prefix-Waits : (n : ℕ) → n < length frame → Waits (take n frame)
  unfolding round_of magic_position possible_start
  prefix-Waits zero h = refl
  prefix-Waits (suc zero) h = refl
  prefix-Waits (suc (suc m)) h = elim (Bool-cases (ltb m 8)) [
    | inl few ↦ short-Waits m (ltb→lt m 8 few)
    | inr more ↦
        let many = ltb_false→le m 8 more in
        let back : suc (suc (suc (suc (suc (suc (suc (suc (m - 8)))))))) ≡ m =
          omega (arith, many) in
        subst (λ k. Waits (take (suc (suc k)) frame)) back
          (long-Waits (m - 8) (omega (arith, many, h)))
  ]

  -- While a frame has arrived only in part, `next_frame` hands out nothing and keeps every byte, so
  -- the chunks in which a frame arrives make no difference.
  pub next_frame-prefix :
      (n max_capacity : ℕ)
      → n < length (frame_bytes message_type sequence payload)
      → let codec : FrameCodec = record {
        buffer = take n (frame_bytes message_type sequence payload);
        max_capacity = max_capacity;
      } in
        next_frame codec ≡ some (none, codec)
  next_frame-prefix n max_capacity h =
      next_frame_of _ (scan_returned _ (take n frame) (prefix-Waits n h))

-- `feed` keeps the buffer within the capacity: what fits is put behind the bytes that wait, and what
-- does not is refused with the capacity, the buffer unchanged.
pub feed-fits :
    (codec : FrameCodec) (bytes : List ℕ)
    → codec.max_capacity < usize_max
    → length codec.buffer ≤ codec.max_capacity
    → let (answer, codec') = feed codec bytes in
      (length codec'.buffer ≤ codec.max_capacity)
      × (codec'.max_capacity ≡ codec.max_capacity)
      × (length codec.buffer + length bytes ≤ codec.max_capacity
          → (answer ≡ ok tt) × (codec'.buffer ≡ codec.buffer ++ bytes))
      × (codec.max_capacity < length codec.buffer + length bytes
          → (answer ≡ err (buffer_overflow codec.max_capacity)) × (codec' ≡ codec))
unfolding feed
feed-fits codec bytes representable within =
    if_either
      (λ (out : Result _ _ × FrameCodec).
        (length out.1.buffer ≤ codec.max_capacity)
        × (out.1.max_capacity ≡ codec.max_capacity)
        × (length codec.buffer + length bytes ≤ codec.max_capacity
            → (out.0 ≡ ok tt) × (out.1.buffer ≡ codec.buffer ++ bytes))
        × (codec.max_capacity < length codec.buffer + length bytes
            → (out.0 ≡ err (buffer_overflow codec.max_capacity)) × (out.1 ≡ codec)))
      (ltb codec.max_capacity (saturating_add (length codec.buffer) (length bytes)))
      (λ over.
        let above = ltb→lt codec.max_capacity _ over in
        (within, refl, (λ fits. absurd (omega (arith, above, fits))), (λ _. (refl, refl))))
      (λ fits.
        let below = ltb_false→le codec.max_capacity _ fits in
        let both : length codec.buffer + length bytes ≤ codec.max_capacity =
          omega (arith, below, representable) in
        (
          omega (arith, both, length-append codec.buffer bytes),
          refl,
          (λ _. (refl, refl)),
          (λ above. absurd (omega (arith, above, both))),
        ))
