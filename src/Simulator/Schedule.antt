-- ===== src/Simulator/Schedule.antt =====
-- crates/simulator/src/clock_transport.rs: what `send_request` puts in the queue.
use mathlib.Core.Path.{subst}
use dryer.Base.{
  ℕ, suc, ◌+◌, ◌*◌, ◌%◌, ◌^◌, ◌≤◌, ◌<◌, ◌≡◌, refl, sym, ap, ◌∙◌, inl, inr, List, [], ◌∷◌, ◌++◌,
  Result, ok, err, ok_or, map_err, Result-cases, All, length, length-append, append-nil, replicate,
  arith,
}
use dryer.Base.Outcome.{ok-injective}
use dryer.Base.Words.{checked_add_u64}
use dryer.Protocol.{Tick, EncodeError, ClockResponseFrame, clock_response_message_type}
use dryer.Protocol.Decode.{decode_clock_response}
use dryer.Protocol.Encode.{encode_clock_response}
use dryer.Protocol.Encoding.{encode_clock_response-writes}
use dryer.Protocol.Layout.{frame_bytes, clock_response_bytes}
use dryer.Protocol.RoundTrip.{decode_clock_response_layout}
use dryer.Simulator.{
  ClockTransportConfig, ControllerClock, ScheduledResponse, SimClockTransport, time_overflow, clock,
}
use dryer.Simulator.Clocks.{at}
use dryer.Simulator.ClockTransport.{
  answer_at, encoded, numbered_responses, number, respond, respond_all, deliveries,
}
use dryer.Simulator.Deliveries.{Keeps, Within, deliveries-Ends}
use dryer.Simulator.Reads.{RunsAt, at-monotone, at-lt, add_some, ok_or_ok}
use dryer.Simulator.Stateful.{pure, Ends, >>=-Ends, pure-Ends}

-- A response in the queue: the request arrived over its link, the controller took its time, and the
-- response will arrive over its own. Its bytes decode to the request's number and the controller's
-- readings at the two instants.
pub record Answered (cfg : ClockTransportConfig) (host_send sequence : ℕ)
    (response : ScheduledResponse) : Type 0 where
  pub arrival : Tick
  pub departure : Tick
  pub frame : ClockResponseFrame
  pub arrives : Within cfg.request host_send arrival
  pub departs : departure ≡ arrival + cfg.processing_ticks
  pub returns : Within cfg.response departure response.delivered_at
  pub received_at : at cfg.controller_clock arrival ≡ ok frame.response.controller_receive
  pub answered_at : at cfg.controller_clock departure ≡ ok frame.response.controller_send
  pub in_order : frame.response.controller_receive ≤ frame.response.controller_send
  pub same_number : frame.sequence ≡ sequence
  pub decodes : decode_clock_response response.bytes ≡ ok frame

map_err_ok : {E F A : Type 0} {a : A} (f : E → F) (r : Result E A) → map_err f r ≡ ok a → r ≡ ok a
map_err_ok f (ok b) h = ap ok (ok-injective h)
map_err_ok f (err e) h = cc

answer_at_lem :
    (controller : ControllerClock) (sequence : ℕ) (arrival departure : Tick)
    (frame : ClockResponseFrame)
    → answer_at controller sequence arrival departure ≡ ok frame
    → (at controller arrival ≡ ok frame.response.controller_receive)
      × (at controller departure ≡ ok frame.response.controller_send)
      × (frame.sequence ≡ sequence)
unfolding answer_at
answer_at_lem controller sequence arrival departure frame h =
    elim (Result-cases (map_err clock (at controller arrival))) [
      | inr (e, bad) ↦ absurd (cc (rw (answer_at, bad) at h))
      | inl (received, good) ↦ elim (Result-cases (map_err clock (at controller departure))) [
        | inr (e, bad) ↦ absurd (cc (rw (answer_at, good, bad) at h))
        | inl (sent, good') ↦
            let is = ok-injective (rw (answer_at, good, good') at h) in
            (
              map_err_ok clock (at controller arrival) good
                  ∙ ap (λ f. ok f.response.controller_receive) is,
              map_err_ok clock (at controller departure) good'
                  ∙ ap (λ f. ok f.response.controller_send) is,
              sym (ap (λ f. f.sequence) is),
            )
      ]
    ]

encoded-decodes :
    (frame : ClockResponseFrame) (bytes : List ℕ)
    → frame.sequence < 2 ^ 32
    → frame.response.controller_receive < 2 ^ 64
    → frame.response.controller_send < 2 ^ 64
    → encoded frame ≡ ok bytes
    → decode_clock_response bytes ≡ ok frame
unfolding encoded
encoded-decodes frame bytes numbered_fits receive send h =
    let blank : List ℕ = replicate 31 0 in
    let writes = encode_clock_response-writes frame blank (omega arith) in
    let answers : (encode_clock_response frame blank).0 ≡ ok 31 =
      ap (λ (p : Result EncodeError ℕ × List ℕ). p.0) writes in
    let holds : (encode_clock_response frame blank).1
        ≡ frame_bytes clock_response_message_type frame.sequence
            (clock_response_bytes frame.response)
          ++ [] =
      ap (λ (p : Result EncodeError ℕ × List ℕ). p.1) writes in
    subst (λ xs. decode_clock_response xs ≡ ok frame)
      (sym (append-nil _) ∙ sym holds ∙ ok-injective (rw (encoded, answers) at h))
      (decode_clock_response_layout frame numbered_fits receive send)

module _ (t : SimClockTransport) (rate host_send sequence : ℕ)
    (runs : RunsAt t.cfg.controller_clock rate) (fits : sequence < 2 ^ 32) where
  abbrev Answers : List ScheduledResponse → Type 0
  Answers responses = All (Answered t.cfg host_send sequence) responses

  -- What is known of a response before it is numbered: all but when it arrives.
  module _ (arrival departure : Tick) (frame : ClockResponseFrame) (bytes : List ℕ)
      (arrives : Within t.cfg.request host_send arrival)
      (departs : departure ≡ arrival + t.cfg.processing_ticks)
      (answers : answer_at t.cfg.controller_clock sequence arrival departure ≡ ok frame)
      (in_bytes : encoded frame ≡ ok bytes) where
    answered_lem :
        (delivered_at order : ℕ)
        → Within t.cfg.response departure delivered_at
        → Answered t.cfg host_send sequence
            (record { delivered_at = delivered_at; insertion_order = order; bytes = bytes })
    answered_lem delivered_at order returns =
        let clock_of = t.cfg.controller_clock in
        let (received, sent, same) =
          answer_at_lem clock_of sequence arrival departure frame answers in
        record {
          arrival = arrival;
          departure = departure;
          frame = frame;
          arrives = arrives;
          departs = departs;
          returns = returns;
          received_at = received;
          answered_at = sent;
          in_order =
              at-monotone clock_of rate arrival departure _ _ runs (omega (arith, departs)) received
                sent;
          same_number = same;
          decodes =
              encoded-decodes frame bytes (omega (arith, same, fits))
                (at-lt clock_of rate arrival _ runs received)
                (at-lt clock_of rate departure _ runs sent) in_bytes;
        }

    numbered_responses-Answers :
        (ticks : List Tick) (order : ℕ)
        → All (Within t.cfg.response departure) ticks
        → Answers (numbered_responses ticks bytes order)
          × (length (numbered_responses ticks bytes order) ≡ length ticks)
    unfolding numbered_responses
    numbered_responses-Answers [] order h = (tt, refl)
    numbered_responses-Answers (tick ∷ ticks) order (within, h) =
        let (rest, size) = numbered_responses-Answers ticks ((order + 1) % 2 ^ 64) h in
        ((answered_lem tick order within, rest), ap suc size)

  -- At most this many responses, each as it should be.
  abbrev pub UpTo : ℕ → List ScheduledResponse → Type 0
  UpTo n responses = Answers responses × (length responses ≤ n)

  number-Ends :
      (arrival departure : Tick) (frame : ClockResponseFrame) (bytes : List ℕ)
      (s : SimClockTransport)
      → Keeps t s
      → Within t.cfg.request host_send arrival
      → departure ≡ arrival + t.cfg.processing_ticks
      → answer_at t.cfg.controller_clock sequence arrival departure ≡ ok frame
      → encoded frame ≡ ok bytes
      → (ticks : List Tick) → All (Within t.cfg.response departure) ticks × (length ticks ≤ 2)
      → Ends (Keeps t) (UpTo 2) (number ticks bytes s)
  unfolding number
  number-Ends arrival departure frame bytes s kept arrives departs answers in_bytes ticks
        (within, few) =
      let (all_answer, size) =
        numbered_responses-Answers arrival departure frame bytes arrives departs answers in_bytes
          ticks s.next_insertion_order within in
      (kept, (all_answer, omega (arith, size, few)))

  respond-Ends :
      (arrival : Tick) (s : SimClockTransport)
      → Keeps t s
      → Within t.cfg.request host_send arrival
      → Ends (Keeps t) (UpTo 2) (respond sequence arrival s)
  unfolding respond
  respond-Ends arrival s kept arrives =
      >>=-Ends (Keeps t)
        (λ departure.
          ok_or (checked_add_u64 arrival s.cfg.processing_ticks) time_overflow ≡ ok departure)
        (UpTo 2) (pure (ok_or (checked_add_u64 arrival s.cfg.processing_ticks) time_overflow)) _ s
        (pure-Ends (Keeps t) (ok_or (checked_add_u64 arrival s.cfg.processing_ticks) time_overflow)
          s kept)
        (λ departure s₁ kept₁ departs.
          let clock_of = s.cfg.controller_clock in
          >>=-Ends (Keeps t) (λ frame. answer_at clock_of sequence arrival departure ≡ ok frame)
            (UpTo 2) (pure (answer_at clock_of sequence arrival departure)) _ s₁
            (pure-Ends (Keeps t) (answer_at clock_of sequence arrival departure) s₁ kept₁)
            (λ frame s₂ kept₂ answers.
              >>=-Ends (Keeps t) (λ bytes. encoded frame ≡ ok bytes) (UpTo 2) (pure (encoded frame))
                _ s₂ (pure-Ends (Keeps t) (encoded frame) s₂ kept₂)
                (λ bytes s₃ kept₃ in_bytes.
                  >>=-Ends (Keeps t)
                    (λ ticks. All (Within t.cfg.response departure) ticks × (length ticks ≤ 2))
                    (UpTo 2) (deliveries departure s.cfg.response) _ s₃
                    (subst
                      (λ (c : ClockTransportConfig).
                        Ends (Keeps t)
                          (λ ticks. All (Within c.response departure) ticks × (length ticks ≤ 2))
                          (deliveries departure s.cfg.response s₃))
                      kept.0 (deliveries-Ends t departure s.cfg.response s₃ kept₃))
                    (λ ticks s₄ kept₄ arrive.
                      number-Ends arrival departure frame bytes s₄ kept₄ arrives
                        ((add_some arrival s.cfg.processing_ticks departure
                            (ok_or_ok _ _ departs)).0
                          ∙ ap (λ (c : ClockTransportConfig). arrival + c.processing_ticks) kept.0)
                        (subst
                          (λ (c : ClockTransportConfig).
                            answer_at c.controller_clock sequence arrival departure ≡ ok frame)
                          kept.0 answers)
                        in_bytes ticks arrive))))

  All_join : (xs ys : List ScheduledResponse) → Answers xs → Answers ys → Answers (xs ++ ys)
  All_join [] ys h k = k
  All_join (x ∷ xs) ys (p, h) k = (p, All_join xs ys h k)

  pub respond_all-Ends :
      (arrivals : List Tick) (s : SimClockTransport)
      → Keeps t s
      → All (Within t.cfg.request host_send) arrivals
      → Ends (Keeps t) (UpTo (2 * length arrivals)) (respond_all sequence arrivals s)
  unfolding respond_all
  respond_all-Ends [] s kept h = (kept, (tt, omega arith))
  respond_all-Ends (arrival ∷ rest) s kept (arrives, h) =
      >>=-Ends (Keeps t) (UpTo 2) (UpTo (2 * length (arrival ∷ rest))) (respond sequence arrival) _
        s (respond-Ends arrival s kept arrives)
        (λ first s₁ kept₁ (first_answer, few).
          >>=-Ends (Keeps t) (UpTo (2 * length rest)) (UpTo (2 * length (arrival ∷ rest)))
            (respond_all sequence rest) _ s₁ (respond_all-Ends rest s₁ kept₁ h)
            (λ later s₂ kept₂ (later_answer, few'). (
              kept₂,
              (
                All_join first later first_answer later_answer,
                omega (arith, few, few', length-append first later),
              ),
            )))
