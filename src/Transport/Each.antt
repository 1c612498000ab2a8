-- ===== src/Transport/Each.antt =====
-- crates/transport-adapter/src/lib.rs: a stream of frames back to back is dispatched as the frames
-- one by one, which is what the reader is for.
use mathlib.Core.Path.{subst}
use dryer.Base.{
  ℕ, zero, suc, ◌<◌, ◌≡◌, sym, ◌∙◌, Bool, inl, inr, Option, some, List, [], ◌∷◌, ◌++◌, Result, ok,
  err, Result-cases, All, length, append_assoc, arith,
}
use dryer.Daemon.{ControllerDaemon}
use dryer.Protocol.{Str}
use dryer.Transport.{FrameCodec, DispatchedFrame, TransportAdapterError}
use dryer.Transport.Codec.{next_frame}
use dryer.Transport.Delimited.{IsFrame}
use dryer.Transport.Partial.{Waits}
use dryer.Transport.Reader.{dispatch_frame, dispatch_all}
use dryer.Transport.Resync.{scan-frame}
use dryer.Transport.Returns.{next_frame_of, scan_returned}
use dryer.Transport.Stream.{Outcome, dispatch_none, dispatch_some}

abbrev pub concat : List (List ℕ) → List ℕ
concat [] = []
concat (bytes ∷ rest) = bytes ++ concat rest

next_frame-IsFrame :
    (bytes rest : List ℕ) (max_capacity : ℕ)
    → IsFrame bytes
    → next_frame (record { buffer = bytes ++ rest; max_capacity = max_capacity })
      ≡ some (some bytes, record { buffer = rest; max_capacity = max_capacity })
next_frame-IsFrame bytes rest max_capacity frame =
    subst
      (λ laid.
        next_frame (record { buffer = laid ++ rest; max_capacity = max_capacity })
        ≡ some (some laid, record { buffer = rest; max_capacity = max_capacity }))
      (sym frame.laid_out)
      (next_frame_of _ (
        scan-frame frame.message_type frame.sequence frame.payload rest frame.known.0 frame.known.1
          frame.small _))

abbrev pub stream : List (List ℕ) → List ℕ → ℕ → FrameCodec
stream frames tail max_capacity = record {
  buffer = concat frames ++ tail;
  max_capacity = max_capacity;
}

module _ (bytes : List ℕ) (rest : List (List ℕ)) (tail : List ℕ) (max_capacity : ℕ)
    (frame : IsFrame bytes) where
  next_frame-concat :
      next_frame (record { buffer = concat (bytes ∷ rest) ++ tail; max_capacity = max_capacity })
      ≡ some (some bytes, record { buffer = concat rest ++ tail; max_capacity = max_capacity })
  next_frame-concat =
      rw (append_assoc bytes (concat rest) tail)
        (next_frame-IsFrame bytes (concat rest ++ tail) max_capacity frame)

-- What the loop answers where the abstract reader answers so.
abbrev pub answered :
    {E : Type 0}
    → Result (TransportAdapterError E) (List DispatchedFrame) × List (List ℕ) × ControllerDaemon
    → List ℕ
    → ℕ
    → Option (Outcome E)
answered (answer, left, daemon') tail max_capacity =
    some (answer, stream left tail max_capacity, daemon')

module _ {E : Type 0} (is_utf8 : List ℕ → Bool) where
  -- The abstract reader: whole frames come in, one after the other, and no bytes are seen. It answers
  -- with the frames that are left at the first error, and with none where there is none.
  unfoldable pub dispatch_each :
      List (List ℕ)
      → List DispatchedFrame
      → ControllerDaemon
      → Str
      → ℕ
      → Result (TransportAdapterError E) (List DispatchedFrame) × List (List ℕ) × ControllerDaemon
  dispatch_each [] dispatched daemon id now = (ok dispatched, [], daemon)
  dispatch_each (bytes ∷ rest) dispatched daemon id now =
      let (answer, daemon') = dispatch_frame {E = E} is_utf8 bytes daemon id now in
      elim answer [
        | err e ↦ (err e, rest, daemon')
        | ok frame ↦ dispatch_each rest (dispatched ++ (frame ∷ [])) daemon' id now
      ]

  module _ (bytes : List ℕ) (rest : List (List ℕ)) (tail : List ℕ) (max_capacity fuel : ℕ)
      (dispatched : List DispatchedFrame) (daemon : ControllerDaemon) (id : Str) (now : ℕ)
      (frame : IsFrame bytes) where
    after_good :
        (f : DispatchedFrame)
        → (dispatch_frame {E = E} is_utf8 bytes daemon id now).0 ≡ ok f
        → let daemon' = (dispatch_frame {E = E} is_utf8 bytes daemon id now).1 in
          dispatch_all is_utf8 fuel
              (stream rest tail max_capacity)
              (dispatched ++ (f ∷ []))
              daemon'
              id
              now
            ≡ answered
                (dispatch_each rest (dispatched ++ (f ∷ [])) daemon' id now)
                tail
                max_capacity
          → dispatch_all is_utf8
              (suc fuel)
              (stream (bytes ∷ rest) tail max_capacity)
              dispatched
              daemon
              id
              now
            ≡ answered (dispatch_each (bytes ∷ rest) dispatched daemon id now) tail max_capacity
    unfolding dispatch_each
    after_good f good later =
        let round =
          dispatch_some {E = E} is_utf8 fuel (stream (bytes ∷ rest) tail max_capacity) dispatched
            daemon id now (next_frame-concat bytes rest tail max_capacity frame) in
        rw (dispatch_each, good) (rw good at round ∙ later)

    after_bad :
        (e : TransportAdapterError E)
        → (dispatch_frame {E = E} is_utf8 bytes daemon id now).0 ≡ err e
        → dispatch_all is_utf8
            (suc fuel)
            (stream (bytes ∷ rest) tail max_capacity)
            dispatched
            daemon
            id
            now
          ≡ answered (dispatch_each (bytes ∷ rest) dispatched daemon id now) tail max_capacity
    unfolding dispatch_each
    after_bad e bad =
        let round =
          dispatch_some {E = E} is_utf8 fuel (stream (bytes ∷ rest) tail max_capacity) dispatched
            daemon id now (next_frame-concat bytes rest tail max_capacity frame) in
        rw (dispatch_each, bad) (rw bad at round)

  -- Frames back to back, with the start of another one behind them, are read from the bytes as the
  -- abstract reader takes them as whole frames: the same frames dispatched in the same order into the
  -- same daemon, the same first error, and exactly the bytes after it left for the next read. One
  -- round more than there are frames is enough.
  pub dispatch_all-dispatch_each :
      (frames : List (List ℕ)) (tail : List ℕ) (max_capacity fuel : ℕ)
      (dispatched : List DispatchedFrame) (daemon : ControllerDaemon) (id : Str) (now : ℕ)
      → All IsFrame frames
      → Waits tail
      → length frames < fuel
      → dispatch_all is_utf8 fuel (stream frames tail max_capacity) dispatched daemon id now
        ≡ answered (dispatch_each frames dispatched daemon id now) tail max_capacity
  unfolding dispatch_each
  dispatch_all-dispatch_each frames tail max_capacity zero dispatched daemon id now framed waits h =
      absurd (omega arith)
  dispatch_all-dispatch_each [] tail max_capacity (suc fuel) dispatched daemon id now framed waits
        h =
      dispatch_none is_utf8 fuel (record { buffer = tail; max_capacity = max_capacity }) dispatched
        daemon id now
        (next_frame_of (record { buffer = tail; max_capacity = max_capacity })
          (scan_returned (length tail) tail waits))
  dispatch_all-dispatch_each (bytes ∷ rest) tail max_capacity (suc fuel) dispatched daemon id now
        (frame, framed) waits h =
      let p = dispatch_frame {E = E} is_utf8 bytes daemon id now in
      elim (Result-cases (p.0)) [
        | inl (f, good) ↦
            after_good bytes rest tail max_capacity fuel dispatched daemon id now frame f good (
              dispatch_all-dispatch_each rest tail max_capacity fuel (dispatched ++ (f ∷ [])) (p.1)
                id now framed waits (omega (arith, h)))
        | inr (e, bad) ↦
            after_bad bytes rest tail max_capacity fuel dispatched daemon id now frame e bad
      ]
