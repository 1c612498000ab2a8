-- ===== src/Client/Answers.antt =====
-- crates/control-client/src/lib.rs: what becomes of a clock session's pending exchange.
use dryer.Base.{
  ℕ, ◌-◌, ◌≤◌, ◌<◌, ◌≡◌, ◌≢◌, ◌==◌, ◌⊎◌, refl, none, some, List, Result, ok, err, Result-cases,
  Option-cases, Bool-cases, Option, if_either, inl, inr, arith,
}
use dryer.Client.{ClockExchangeReceipt, ClockSessionError, PendingClockExchange, ClockSession}
use dryer.Client.Session.{accept_at, correlate, conclude, expired, sample_of}
use dryer.Clock.{ClockSample, ClockSyncError, ClockEstimate, HostTick}
use dryer.Clock.Sync.{push}
use dryer.Protocol.{ClockResponseFrame, DecodeError}
use dryer.Protocol.Decode.{decode_clock_response}

module _ (E : Type 0) (s : ClockSession) (bytes : List ℕ) (host_receive : HostTick) where
  -- Why a response is refused: it does not decode, nothing is pending, or its number is another
  -- one than the pending exchange's.
  pub data Refused : ClockSessionError E → Type 0 where
    malformed :
        (e : DecodeError)
        → decode_clock_response bytes ≡ err e
        → Refused (ClockSessionError.decode e)
    unasked :
        (frame : ClockResponseFrame)
        → decode_clock_response bytes ≡ ok frame
        → s.pending ≡ none
        → Refused ClockSessionError.no_pending
    unexpected :
        (frame : ClockResponseFrame) (pending : PendingClockExchange)
        → decode_clock_response bytes ≡ ok frame
        → s.pending ≡ some pending
        → frame.sequence ≢ pending.sequence
        → Refused (ClockSessionError.unexpected_sequence pending.sequence frame.sequence)

  -- The sample of an exchange: sent and received by the host's clock, and received and sent by the
  -- controller's.
  abbrev pub exchanged : PendingClockExchange → ClockResponseFrame → ClockSample
  exchanged pending frame = record {
    host_send = pending.host_send;
    controller_receive = frame.response.controller_receive;
    controller_send = frame.response.controller_send;
    host_receive = host_receive;
  }

  -- What the session answers for what the synchronizer does.
  abbrev pub told :
      ℕ
      → ClockSample
      → Result ClockSyncError (Option ClockEstimate)
      → Result (ClockSessionError E) ClockExchangeReceipt
  told sequence sample (err e) = err (ClockSessionError.sync e)
  told sequence sample (ok estimate) =
      ok (record { sequence = sequence; sample = sample; estimate = estimate })

  abbrev pub Late :
      PendingClockExchange
      → Result (ClockSessionError E) ClockExchangeReceipt × ClockSession
      → Type 0
  Late pending answered =
      (s.timeout_ticks ≤ host_receive - pending.host_send)
      × (answered
          ≡ (err (ClockSessionError.timed_out pending.sequence), record s { pending = none }))

  abbrev pub InTime :
      PendingClockExchange
      → ClockResponseFrame
      → Result (ClockSessionError E) ClockExchangeReceipt × ClockSession
      → Type 0
  InTime pending frame answered =
      let sample = exchanged pending frame in
      let (pushed, sync) = push s.sync sample in
      (host_receive - pending.host_send < s.timeout_ticks)
      × (answered ≡ (told pending.sequence sample pushed, record s { pending = none; sync = sync }))

  -- The response carries the pending exchange's number, and the exchange is over.
  abbrev pub Retired : Result (ClockSessionError E) ClockExchangeReceipt × ClockSession → Type 0
  Retired answered =
      (frame : ClockResponseFrame) × (pending : PendingClockExchange) × (decode_clock_response bytes
        ≡ ok frame)
      × (s.pending ≡ some pending)
      × (frame.sequence ≡ pending.sequence)
      × (Late pending answered ⊎ InTime pending frame answered)

  conclude_lem :
      (pending : PendingClockExchange) (frame : ClockResponseFrame)
      → let sample = exchanged pending frame in
        let (pushed, sync) = push s.sync sample in
        conclude s pending (sample_of pending frame host_receive)
        ≡ (told pending.sequence sample pushed, record s { pending = none; sync = sync })
  conclude_lem pending frame = elim (Result-cases ((push s.sync (exchanged pending frame)).0)) [
    | inl (_, pushed) ↦ rw (conclude, told, pushed) refl
    | inr (_, refused) ↦ rw (conclude, told, refused) refl
  ]

  pub answered :
      (frame : ClockResponseFrame) (pending : PendingClockExchange)
      → correlate {E = E} s bytes ≡ ok (frame, pending)
      → Late pending (accept_at s bytes host_receive)
        ⊎ InTime pending frame (accept_at s bytes host_receive)
  unfolding accept_at
  answered frame pending matched =
      rw (accept_at, matched)
        (if_either
          (λ (p : Result (ClockSessionError E) ClockExchangeReceipt × ClockSession).
            Late pending p ⊎ InTime pending frame p)
          (expired s pending host_receive) (λ late. inl (ground (arith, late), refl))
          (λ early. inr (ground (arith, early), conclude_lem pending frame)))

  -- A response is refused, for one of three reasons that the error names, and the session stays as
  -- it was. Or it decodes to the number of the pending exchange, which is then over. Where the
  -- timeout has passed the session answers so, and only drops the exchange. Before that the sample
  -- of the two host times and the controller's two times is pushed into the synchronizer; the
  -- synchronizer's error is the answer, or its estimate beside the number and the sample, and the
  -- exchange is dropped either way.
  pub accept_at-retires :
      ((e : ClockSessionError E) × Refused e × (accept_at s bytes host_receive ≡ (err e, s)))
      ⊎ Retired (accept_at s bytes host_receive)
  unfolding accept_at correlate
  accept_at-retires = elim (Result-cases (decode_clock_response bytes)) [
    | inr (e, failed) ↦
        inl (ClockSessionError.decode e, malformed e failed, rw (accept_at, correlate, failed) refl)
    | inl (frame, decoded) ↦ elim (Option-cases s.pending) [
      | inl free ↦
          let unmatched : correlate {E = E} s bytes ≡ err ClockSessionError.no_pending =
            rw (correlate, decoded, free) refl in
          inl (
            ClockSessionError.no_pending,
            unasked frame decoded free,
            rw (accept_at, unmatched) refl,
          )
      | inr (pending, waiting) ↦ elim (Bool-cases (frame.sequence == pending.sequence)) [
        | inr apart ↦
            let unmatched : correlate {E = E} s bytes
                ≡ err (ClockSessionError.unexpected_sequence pending.sequence frame.sequence) =
              rw (correlate, decoded, waiting, apart) refl in
            inl (
              ClockSessionError.unexpected_sequence pending.sequence frame.sequence,
              unexpected frame pending decoded waiting (λ same. ground (arith, apart, same)),
              rw (accept_at, unmatched) refl,
            )
        | inl same ↦ inr (
          frame,
          pending,
          decoded,
          waiting,
          ground (arith, same),
          answered frame pending (rw (correlate, decoded, waiting, same) refl),
        )
      ]
    ]
  ]
