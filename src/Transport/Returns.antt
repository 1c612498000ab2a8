-- ===== src/Transport/Returns.antt =====
-- crates/transport-adapter/src/lib.rs: the delimiter's loop ends, and what it leaves.
use dryer.Base.{
  ℕ, zero, suc, ◌≤◌, ◌<◌, ◌≡◌, refl, ◌∙◌, inl, inr, not, Option, none, some, List, [], ◌∷◌, length,
  drop, length-drop, ltb, Option-cases, if_either, arith,
}
use dryer.Protocol.{header_len, max_frame_len}
use dryer.Transport.{FrameCodec}
use dryer.Transport.Codec.{
  Round, returned, again, magic_position, possible_start, round_at_magic, round_of, scan, enough,
  next_frame, valid_header, frame_len_of, checksum_matches,
}

-- What is left of the buffer: with a frame handed out it is shorter, and otherwise no longer.
abbrev pub Left : List ℕ → Option (List ℕ) → List ℕ → Type 0
Left buffer none rest = length rest ≤ length buffer
Left buffer (some frame) rest = length rest < length buffer

-- A round that goes again has dropped a byte.
abbrev pub Shrinks : List ℕ → Round → Type 0
Shrinks buffer (returned frame rest) = Left buffer frame rest
Shrinks buffer (again rest) = length rest < length buffer

possible_start-le : (buffer : List ℕ) → length (possible_start buffer) ≤ length buffer
unfolding possible_start
possible_start-le [] = omega arith
possible_start-le (a ∷ []) = ground arith
possible_start-le (a ∷ b ∷ rest) = omega (arith, possible_start-le (b ∷ rest))

round_at_magic-Shrinks :
    (buffer : List ℕ) → 0 < length buffer → Shrinks buffer (round_at_magic buffer)
unfolding round_at_magic
round_at_magic-Shrinks buffer h =
    if_either (Shrinks buffer) (ltb (length buffer) header_len) (λ _. omega arith)
      (λ _.
        if_either (Shrinks buffer) (not (valid_header buffer)) (λ _. shorter)
          (λ _.
            if_either (Shrinks buffer) (ltb max_frame_len (frame_len_of buffer)) (λ _. shorter)
              (λ _.
                if_either (Shrinks buffer) (ltb (length buffer) (frame_len_of buffer))
                  (λ _. omega arith)
                  (λ _.
                    if_either (Shrinks buffer) (not (checksum_matches buffer)) (λ _. shorter)
                      (λ _. omega (arith, length-drop (frame_len_of buffer) buffer, h))))))
  where
    shorter : length (drop 1 buffer) < length buffer
    shorter = omega (arith, length-drop 1 buffer)

magic_position-lt :
    (buffer : List ℕ) {pos : ℕ} → magic_position buffer ≡ some pos → pos < length buffer
unfolding magic_position
magic_position-lt [] h = cc
magic_position-lt (a ∷ []) h = cc
magic_position-lt (a ∷ b ∷ rest) {pos} h = elim (Option-cases (magic_position (b ∷ rest))) [
  | inl nowhere ↦ ground (arith, nowhere)
  | inr (p, found) ↦ ground (arith, magic_position-lt (b ∷ rest) found)
]

round_of-Shrinks : (buffer : List ℕ) → Shrinks buffer (round_of (magic_position buffer) buffer)
unfolding round_of
round_of-Shrinks buffer = elim (Option-cases (magic_position buffer)) [
  | inl nowhere ↦ rw nowhere (possible_start-le buffer)
  | inr (zero, found) ↦ rw found (round_at_magic-Shrinks buffer (magic_position-lt buffer found))
  | inr (suc pos, found) ↦
      let inside = magic_position-lt buffer found in
      rw found (omega (arith, length-drop (suc pos) buffer))
]

pub scan_returned :
    (fuel : ℕ) (buffer : List ℕ) {frame : Option (List ℕ)} {rest : List ℕ}
    → round_of (magic_position buffer) buffer ≡ returned frame rest
    → scan (suc fuel) buffer ≡ some (frame, rest)
unfolding scan
scan_returned fuel buffer is = rw (scan, is) refl

pub scan_again :
    (fuel : ℕ) (buffer : List ℕ) {rest : List ℕ}
    → round_of (magic_position buffer) buffer ≡ again rest
    → scan (suc fuel) buffer ≡ scan fuel rest
unfolding scan
scan_again fuel buffer is = rw (scan, is) refl

pub next_frame_of :
    (codec : FrameCodec) {frame : Option (List ℕ)} {rest : List ℕ}
    → scan (enough codec.buffer) codec.buffer ≡ some (frame, rest)
    → next_frame codec ≡ some (frame, record codec { buffer = rest })
unfolding next_frame
next_frame_of codec ends = rw (next_frame, ends) refl

farther :
    (buffer : List ℕ) (frame : Option (List ℕ)) (rest rest' : List ℕ)
    → length rest < length buffer
    → Left rest frame rest'
    → Left buffer frame rest'
farther buffer none rest rest' shorter left = omega (arith, shorter, left)
farther buffer (some frame) rest rest' shorter left = omega (arith, shorter, left)

-- With more fuel than bytes the loop ends, and it leaves no more than it was given.
pub scan_returns :
    (fuel : ℕ) (buffer : List ℕ)
    → length buffer < fuel
    → (frame : Option (List ℕ)) × (rest : List ℕ) × (scan fuel buffer ≡ some (frame, rest))
      × Left buffer frame rest
unfolding scan
scan_returns zero buffer h = absurd (omega arith)
scan_returns (suc fuel) buffer h =
    finish (round_of (magic_position buffer) buffer) refl (round_of-Shrinks buffer)
      (λ rest shorter. scan_returns fuel rest (omega (arith, shorter)))
  where
    finish :
        (r : Round)
        → round_of (magic_position buffer) buffer ≡ r
        → Shrinks buffer r
        → ((rest : List ℕ)
            → length rest < length buffer
            → (frame : Option (List ℕ)) × (rest' : List ℕ) × (scan fuel rest ≡ some (frame, rest'))
              × Left rest frame rest')
        → (frame : Option (List ℕ)) × (rest : List ℕ) × (scan (suc fuel) buffer
            ≡ some (frame, rest))
          × Left buffer frame rest
    finish (returned frame rest) is shrinks later =
        (frame, rest, scan_returned fuel buffer is, shrinks)
    finish (again rest) is shrinks later =
        let (frame, rest', ends, small) = later rest shrinks in
        (
          frame,
          rest',
          scan_again fuel buffer is ∙ ends,
          farther buffer frame rest rest' shrinks small,
        )

-- `next_frame` returns on every buffer: each round that does not return drops at least a byte. It
-- never grows the buffer, a frame handed out shortens it, and the capacity is kept.
pub next_frame_returns :
    (codec : FrameCodec)
    → (frame : Option (List ℕ)) × (codec' : FrameCodec) × (next_frame codec ≡ some (frame, codec'))
      × Left codec.buffer frame codec'.buffer
      × (codec'.max_capacity ≡ codec.max_capacity)
next_frame_returns codec =
    let (frame, rest, ends, left) = scan_returns (enough codec.buffer) codec.buffer (omega arith) in
    (frame, record codec { buffer = rest }, next_frame_of codec ends, left, refl)
