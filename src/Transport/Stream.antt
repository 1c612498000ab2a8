-- ===== src/Transport/Stream.antt =====
-- crates/transport-adapter/src/lib.rs: the reader's loop, round by round, and that it ends.
use dryer.Base.{
  ℕ, zero, suc, ◌<◌, ◌≡◌, refl, ◌∙◌, Bool, inl, inr, Option, none, some, List, [], ◌∷◌, ◌++◌,
  Result, ok, err, Result-cases, length, arith, ltb, if◌then◌else◌,
}
use dryer.Daemon.{ControllerDaemon}
use dryer.Protocol.{Str}
use dryer.Transport.{FrameCodec, DispatchedFrame, TransportAdapterError}
use dryer.Transport.Codec.{enough, next_frame, feed}
use dryer.Transport.Reader.{dispatch_frame, dispatch_all, dispatch_read}
use dryer.Transport.Returns.{Left, next_frame_returns}

abbrev pub Outcome : Type 0 → Type 0
Outcome E = Result (TransportAdapterError E) (List DispatchedFrame) × FrameCodec × ControllerDaemon

module _ {E : Type 0} (is_utf8 : List ℕ → Bool) where
  -- One round of the reader's loop, by what `next_frame` and `dispatch_frame` answer.
  pub dispatch_none :
      (fuel : ℕ) (codec : FrameCodec) (dispatched : List DispatchedFrame)
      (daemon : ControllerDaemon) (id : Str) (now : ℕ) {codec' : FrameCodec}
      → next_frame codec ≡ some (none, codec')
      → dispatch_all {E = E} is_utf8 (suc fuel) codec dispatched daemon id now
        ≡ some (ok dispatched, codec', daemon)
  unfolding dispatch_all
  dispatch_none fuel codec dispatched daemon id now next = rw (dispatch_all, next) refl

  pub dispatch_some :
      (fuel : ℕ) (codec : FrameCodec) (dispatched : List DispatchedFrame)
      (daemon : ControllerDaemon) (id : Str) (now : ℕ) {bytes : List ℕ} {codec' : FrameCodec}
      → next_frame codec ≡ some (some bytes, codec')
      → let (answer, daemon') = dispatch_frame {E = E} is_utf8 bytes daemon id now in
        dispatch_all {E = E} is_utf8 (suc fuel) codec dispatched daemon id now ≡ elim answer [
          | err e ↦ some (err e, codec', daemon')
          | ok frame ↦ dispatch_all is_utf8 fuel codec' (dispatched ++ (frame ∷ [])) daemon' id now
        ]
  unfolding dispatch_all
  dispatch_some fuel codec dispatched daemon id now next = rw (dispatch_all, next) refl

  dispatch_all_returns :
      (fuel : ℕ) (codec : FrameCodec) (dispatched : List DispatchedFrame)
      (daemon : ControllerDaemon) (id : Str) (now : ℕ)
      → length codec.buffer < fuel
      → (out : Outcome E) × (dispatch_all is_utf8 fuel codec dispatched daemon id now ≡ some out)
  dispatch_all_returns zero codec dispatched daemon id now h = absurd (omega arith)
  dispatch_all_returns (suc fuel) codec dispatched daemon id now h =
      let (found, codec', next, left, _) = next_frame_returns codec in
      by_found found codec' next left (λ acc daemon' shorter.
        dispatch_all_returns fuel codec' acc daemon' id now (omega (arith, shorter)))
    where
      by_found :
          (found : Option (List ℕ)) (codec' : FrameCodec)
          → next_frame codec ≡ some (found, codec')
          → Left codec.buffer found codec'.buffer
          → ((acc : List DispatchedFrame) (daemon' : ControllerDaemon)
              → length codec'.buffer < length codec.buffer
              → (out : Outcome E) × (dispatch_all is_utf8 fuel codec' acc daemon' id now
                  ≡ some out))
          → (out : Outcome E) × (dispatch_all is_utf8 (suc fuel) codec dispatched daemon id now
              ≡ some out)
      by_found none codec' next left later =
          (_, dispatch_none fuel codec dispatched daemon id now next)
      by_found (some bytes) codec' next left later =
          let (answer, daemon') = dispatch_frame {E = E} is_utf8 bytes daemon id now in
          let round = dispatch_some fuel codec dispatched daemon id now next in
          elim (Result-cases answer) [
            | inl (frame, good) ↦
                let (out, ends) = later (dispatched ++ (frame ∷ [])) daemon' left in
                (out, rw good at round ∙ ends)
            | inr (e, bad) ↦ (_, rw bad at round)
          ]

  -- The reader's loop always ends: on every buffer, daemon and frame, whatever the frames decode to.
  -- With fuel for one more round than the bytes that wait, a round is left for the last `None`.
  pub dispatch_read_returns :
      (read : Result E (List ℕ)) (codec : FrameCodec) (daemon : ControllerDaemon) (id : Str)
      (now : ℕ)
      → (out : Outcome E) × (dispatch_read is_utf8 read codec daemon id now ≡ some out)
  unfolding dispatch_read
  dispatch_read_returns (err e) codec daemon id now = (_, refl)
  dispatch_read_returns (ok bytes) codec daemon id now =
      let (answer, codec') = if ltb 0 (length bytes) then feed codec bytes else (ok tt, codec) in
      elim (Result-cases answer) [
        | inl (done, good) ↦
            let (out, ends) =
              dispatch_all_returns (enough codec'.buffer) codec' [] daemon id now (omega arith) in
            (out, rw (dispatch_read, good) ends)
        | inr (e, bad) ↦
            ((err (TransportAdapterError.codec e), codec', daemon), rw (dispatch_read, bad) refl)
      ]
