-- ===== src/Client/RoundTrip.antt =====
-- crates/control-client/src/lib.rs: an exchange of a clock session, from the request to the sample.
use dryer.Base.{
  ℕ, ◌-◌, ◌^◌, ◌<◌, ◌≡◌, ◌==◌, ◌⊎◌, refl, sym, ap, true, some, List, Result, ok, Result-cases,
  Option-cases, Bool-cases, take, inl, inr, arith,
}
use dryer.Base.Outcome.{ok-injective}
use dryer.Client.{
  SendFrame, Now, ClockRequestReceipt, ClockExchangeReceipt, ClockSessionError,
  PendingClockExchange, ClockSession,
}
use dryer.Client.Answers.{Late, InTime, answered}
use dryer.Client.Session.{begin_session, issue, accept_at, correlate}
use dryer.Protocol.{ClockResponseFrame, EncodeError}
use dryer.Protocol.Decode.{decode_clock_request, decode_clock_response}
use dryer.Protocol.Encode.{encode_clock_request, encode_clock_response}
use dryer.Protocol.RoundTrip.{
  decode_clock_request-encode_clock_request, decode_clock_response-encode_clock_response,
}

module _ {S E C : Type 0} (send_frame : SendFrame S E) (now : Now C) (s : ClockSession) (sink : S)
    (clock : C) where
  abbrev pub awaited : PendingClockExchange
  awaited = record { sequence = s.next_sequence; host_send = (now clock).0 }

  -- The request's number is in its bytes, in the receipt, and in what is pending.
  abbrev pub Begun :
      ClockRequestReceipt
      → Result (ClockSessionError E) ClockRequestReceipt × ClockSession × S × C
      → Type 0
  Begun receipt (answer, session, sink', clock') =
      (receipt.sequence ≡ s.next_sequence)
      × (session.pending ≡ some awaited)
      × (session.sync ≡ s.sync)
      × (session.timeout_ticks ≡ s.timeout_ticks)
      × ((request : List ℕ) × (decode_clock_request request
            ≡ ok (record { sequence = receipt.sequence }))
          × (sink' ≡ (send_frame sink request).1))

  Issued :
      ClockRequestReceipt
      → Result (ClockSessionError E) ClockRequestReceipt × ClockSession × S × C
      → Type 0
  Issued receipt p = p.0 ≡ ok receipt → Begun receipt p

  issue-Issued :
      (receipt : ClockRequestReceipt) (n : ℕ) (request : List ℕ)
      → decode_clock_request (take n request) ≡ ok (record { sequence = s.next_sequence })
      → Issued receipt (issue send_frame now s sink clock n request)
  unfolding Issued
  issue-Issued receipt n request decoded =
      elim (Result-cases ((send_frame sink (take n request)).0)) [
        | inl (_, sent) ↦
            rw (issue, sent)
              (λ h.
                let same = ap (λ (r : ClockRequestReceipt). r.sequence) (sym (ok-injective h)) in
                (same, refl, refl, refl, (take n request, rw same decoded, refl)))
        | inr (_, failed) ↦ rw (issue, failed) (λ h. cc)
      ]

  begin_session-Issued :
      (receipt : ClockRequestReceipt)
      → s.next_sequence < 2 ^ 32
      → Issued receipt (begin_session send_frame now s sink clock)
  unfolding begin_session Issued
  begin_session-Issued receipt numbered = elim (Option-cases s.pending) [
    | inr (_, pending) ↦ rw (begin_session, pending) (λ h. cc)
    | inl free ↦ elim (Bool-cases s.exhausted) [
      | inl spent ↦ simp (begin_session, free, spent) (λ h. cc)
      | inr unspent ↦ elim (Result-cases (encoding.0)) [
        | inr (_, failed) ↦ rw (begin_session, free, unspent, failed) (λ h. cc)
        | inl (n, encoded) ↦
            rw (begin_session, free, unspent, encoded)
              (issue-Issued receipt n encoding.1 (
                decode_clock_request-encode_clock_request (record { sequence = s.next_sequence })
                  s.request n numbered encoded))
      ]
    ]
  ]
    where
      encoding : Result EncodeError ℕ × List ℕ
      encoding = encode_clock_request (record { sequence = s.next_sequence }) s.request

  -- A request that is begun, in a session whose next number is a u32, hands its sink bytes that
  -- decode to the receipt's number. The response that a controller encodes under that number, with
  -- any two times in range and in any buffer, is taken up when it comes in before the timeout,
  -- counted from the host's time at the sending: the sample of the four times is pushed into the
  -- synchronizer as it was at the request, the synchronizer's answer is told on, and the exchange
  -- is over.
  pub accept_at-begin_session :
      (receipt : ClockRequestReceipt) (frame : ClockResponseFrame) (output : List ℕ)
      (n host_receive : ℕ)
      → (begin_session send_frame now s sink clock).0 ≡ ok receipt
      → s.next_sequence < 2 ^ 32
      → frame.sequence ≡ receipt.sequence
      → frame.response.controller_receive < 2 ^ 64
      → frame.response.controller_send < 2 ^ 64
      → (encode_clock_response frame output).0 ≡ ok n
      → host_receive - (now clock).0 < s.timeout_ticks
      → let begun = begin_session send_frame now s sink clock in
        let bytes = take n (encode_clock_response frame output).1 in
        Begun receipt begun
        × InTime E begun.1 bytes host_receive awaited frame (accept_at begun.1 bytes host_receive)
  unfolding correlate Issued
  accept_at-begin_session receipt frame output n host_receive begins numbered answers receive send
        encoded soon =
      (begun, taken _ (answered E session bytes host_receive frame awaited matched))
    where
      session : ClockSession
      session = (begin_session send_frame now s sink clock).1

      bytes : List ℕ
      bytes = take n (encode_clock_response frame output).1

      begun : Begun receipt (begin_session send_frame now s sink clock)
      begun = begin_session-Issued receipt numbered begins

      decoded : decode_clock_response bytes ≡ ok frame
      decoded =
          decode_clock_response-encode_clock_response frame output n
            (omega (arith, answers, begun.0, numbered)) receive send encoded

      equal : (frame.sequence == s.next_sequence) ≡ true
      equal = ground (arith, answers, begun.0)

      matched : correlate {E = E} session bytes ≡ ok (frame, awaited)
      matched = rw (correlate, decoded, begun.1, equal) refl

      taken :
          (p : Result (ClockSessionError E) ClockExchangeReceipt × ClockSession)
          → Late E session bytes host_receive awaited p
            ⊎ InTime E session bytes host_receive awaited frame p
          → InTime E session bytes host_receive awaited frame p
      taken p (inl late) = absurd (omega (arith, late.0, begun.3, soon))
      taken p (inr timely) = timely
