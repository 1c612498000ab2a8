-- ===== src/Client/Sessions.antt =====
-- crates/control-client/src/lib.rs: the sequence numbers of a clock session.
use dryer.Base.{
  ℕ, ◌-◌, ◌^◌, ◌≤◌, ◌<◌, ◌≡◌, ◌==◌, refl, sym, ◌∙◌, false, Option, List, [], ◌∷◌, Result, ok,
  Result-cases, Option-cases, Bool-cases, if_either, take, inl, inr, All, arith,
}
use dryer.Base.Int.{ℤ}
use dryer.Base.Outcome.{bind_ok, ok-injective}
use dryer.Client.{
  SendFrame, Now, ClockExchangeReceipt, ClockTimeout, ClockSessionError, PendingClockExchange,
  ClockSession,
}
use dryer.Client.Commands.{following}
use dryer.Client.Session.{
  new_session, begin_session, issue, accept_at, correlate, conclude, expire, expired, sample_of,
}
use dryer.Clock.{ClockSample}
use dryer.Clock.Sync.{push}
use dryer.Protocol.{EncodeError}
use dryer.Protocol.Decode.{decode_clock_request}
use dryer.Protocol.Encode.{encode_clock_request}
use dryer.Protocol.RoundTrip.{decode_clock_request-encode_clock_request}

-- A sink with a log of the frames that it was handed, the newest first, taken or not.
abbrev pub logged : {S E : Type 0} → SendFrame S E → SendFrame (List (List ℕ) × S) E
logged send_frame (log, sink) frame =
    let (sent, sink') = send_frame sink frame in (sent, (frame ∷ log, sink'))

-- The frames of a log are clock requests with these numbers.
abbrev pub Carried : List (List ℕ) → List ℕ → Type 0
Carried [] [] = Unit {0}
Carried [] (k ∷ ks) = ⊥
Carried (bytes ∷ log) [] = ⊥
Carried (bytes ∷ log) (k ∷ ks) =
    (decode_clock_request bytes ≡ ok (record { sequence = k })) × Carried log ks

-- A clock session's history: its operations in any order, each with any sink, clock and bytes, and
-- the log of the frames that its sinks were handed.
pub data History : ClockSession → List (List ℕ) → Type 1 where
  opened :
      {session : ClockSession} (slew : ℤ) (timeout : ℕ)
      → new_session slew timeout ≡ ok session
      → History session []
  begun :
      {session : ClockSession} {log : List (List ℕ)} {S E C : Type 0}
      → History session log
      → (send_frame : SendFrame S E) (now : Now C) (sink : S) (clock : C)
      → History
          ((begin_session (logged send_frame) now session (log, sink) clock).1)
          (((begin_session (logged send_frame) now session (log, sink) clock).2).0)
  accepted :
      {session : ClockSession} {log : List (List ℕ)} (E : Type 0)
      → History session log
      → (bytes : List ℕ) (host_receive : ℕ)
      → History ((accept_at {E = E} session bytes host_receive).1) log
  waited :
      {session : ClockSession} {log : List (List ℕ)}
      → History session log
      → (now : ℕ) → History ((expire session now).1) log

-- Newest first, each below the one before it.
abbrev pub Descending : List ℕ → Type 0
Descending [] = Unit {0}
Descending (k ∷ ks) = All (λ j. j < k) ks × Descending ks

record Fresh (session : ClockSession) (sequences : List ℕ) : Type 0 where
  bounded : session.next_sequence < 2 ^ 32
  descending : Descending sequences
  unused : session.exhausted ≡ false → All (λ j. j < session.next_sequence) sequences

-- What is fresh for a session is so for one with the same counter.
same_counter :
    (s t : ClockSession) (ks : List ℕ)
    → t.next_sequence ≡ s.next_sequence
    → t.exhausted ≡ s.exhausted
    → Fresh s ks
    → Fresh t ks
same_counter s t ks next exhausted fresh = record {
  bounded = rw next fresh.bounded;
  descending = fresh.descending;
  unused = λ h. rw next (fresh.unused (sym exhausted ∙ h));
}

All-lt_mono : (m n : ℕ) (ks : List ℕ) → m ≤ n → All (λ j. j < m) ks → All (λ j. j < n) ks
All-lt_mono m n [] h all = tt
All-lt_mono m n (k ∷ ks) h (low, all) = (omega arith, All-lt_mono m n ks h all)

-- The counter moves up, except from its last value.
counts :
    (s : ClockSession)
    → s.next_sequence < 2 ^ 32
    → (s.next_sequence == 2 ^ 32 - 1) ≡ false
    → s.next_sequence < following s.next_sequence
counts s bounded h = ground arith

later :
    (s : ClockSession) (ks : List ℕ)
    → Fresh s ks
    → (s.next_sequence == 2 ^ 32 - 1) ≡ false
    → s.exhausted ≡ false
    → All (λ j. j < following s.next_sequence) ks
later s ks fresh h unspent =
    All-lt_mono s.next_sequence (following s.next_sequence) ks
      (omega (arith, counts s fresh.bounded h)) (fresh.unused unspent)

-- The numbers of a log are fresh for the session.
abbrev Kept : ClockSession → List (List ℕ) → Type 0
Kept s log = (ks : List ℕ) × Carried log ks × Fresh s ks

module _ {S E C : Type 0} (send_frame : SendFrame S E) (now : Now C) where
  issue-Kept :
      (s : ClockSession) (sink : S) (clock : C) (n : ℕ) (request : List ℕ) (log : List (List ℕ))
      → s.exhausted ≡ false
      → decode_clock_request (take n request) ≡ ok (record { sequence = s.next_sequence })
      → Kept s log
      → let p = issue (logged send_frame) now s (log, sink) clock n request in Kept p.1 (p.2).0
  issue-Kept s sink clock n request log unspent decoded (ks, carried, fresh) =
      let fresh' : Fresh
          (record s {
            exhausted = s.next_sequence == 2 ^ 32 - 1;
            next_sequence = following s.next_sequence;
          })
          (s.next_sequence ∷ ks) =
        record {
          bounded = omega arith;
          descending = (fresh.unused unspent, fresh.descending);
          unused = λ h. (counts s fresh.bounded h, later s ks fresh h unspent);
        } in
      elim (Result-cases ((send_frame sink (take n request)).0)) [
        | inl (_, sent) ↦
            rw (issue, sent)
              (
                s.next_sequence ∷ ks,
                (decoded, carried),
                same_counter _ _ (s.next_sequence ∷ ks) refl refl fresh',
              )
        | inr (_, failed) ↦
            rw (issue, failed)
              (
                s.next_sequence ∷ ks,
                (decoded, carried),
                same_counter _ _ (s.next_sequence ∷ ks) refl refl fresh',
              )
      ]

  begin_session-Kept :
      (s : ClockSession) (sink : S) (clock : C) (log : List (List ℕ))
      → Kept s log
      → let p = begin_session (logged send_frame) now s (log, sink) clock in Kept p.1 (p.2).0
  unfolding begin_session
  begin_session-Kept s sink clock log kept = elim (Option-cases s.pending) [
    | inr (_, pending) ↦ rw (begin_session, pending) kept
    | inl free ↦ elim (Bool-cases s.exhausted) [
      | inl spent ↦ simp (begin_session, free, spent) kept
      | inr unspent ↦ elim (Result-cases (encoding.0)) [
        | inr (_, failed) ↦
            rw (begin_session, free, unspent, failed)
              (
                kept.0,
                kept.1,
                same_counter s (record s { request = encoding.1 }) kept.0 refl refl kept.2,
              )
        | inl (n, encoded) ↦
            rw (begin_session, free, unspent, encoded)
              (issue-Kept s sink clock n encoding.1 log unspent
                (decode_clock_request-encode_clock_request (record { sequence = s.next_sequence })
                  s.request n (Fresh.bounded kept.2) encoded)
                kept)
      ]
    ]
  ]
    where
      encoding : Result EncodeError ℕ × List ℕ
      encoding = encode_clock_request (record { sequence = s.next_sequence }) s.request

-- The sequence counter is not a response's business, nor a timeout's.
abbrev SameCounter : ClockSession → ClockSession → Type 0
SameCounter s t = (t.next_sequence ≡ s.next_sequence) × (t.exhausted ≡ s.exhausted)

conclude-SameCounter :
    (E : Type 0) (s : ClockSession) (pending : PendingClockExchange) (sample : ClockSample)
    → SameCounter s ((conclude {E = E} s pending sample).1)
conclude-SameCounter E s pending sample = elim (Result-cases ((push s.sync sample).0)) [
  | inl (_, pushed) ↦ rw (conclude, pushed) (refl, refl)
  | inr (_, refused) ↦ rw (conclude, refused) (refl, refl)
]

accept_at-SameCounter :
    (E : Type 0) (s : ClockSession) (bytes : List ℕ) (host_receive : ℕ)
    → SameCounter s ((accept_at {E = E} s bytes host_receive).1)
unfolding accept_at
accept_at-SameCounter E s bytes host_receive = elim (Result-cases (correlate {E = E} s bytes)) [
  | inr (_, refused) ↦ rw (accept_at, refused) (refl, refl)
  | inl ((response, pending), matched) ↦
      rw (accept_at, matched)
        (if_either
          (λ (p : Result (ClockSessionError E) ClockExchangeReceipt × ClockSession).
            SameCounter s p.1)
          (expired s pending host_receive) (λ _. (refl, refl))
          (λ _. conclude-SameCounter E s pending (sample_of pending response host_receive)))
]

expire-SameCounter : (s : ClockSession) (now : ℕ) → SameCounter s ((expire s now).1)
unfolding expire
expire-SameCounter s now = elim (Option-cases s.pending) [
  | inl free ↦ rw (expire, free) (refl, refl)
  | inr (pending, waiting) ↦
      rw (expire, waiting)
        (if_either (λ (p : Option ClockTimeout × ClockSession). SameCounter s p.1)
          (expired s pending now) (λ _. (refl, refl)) (λ _. (refl, refl)))
]

new_session-Fresh :
    (slew : ℤ) (timeout : ℕ) {s : ClockSession} → new_session slew timeout ≡ ok s → Fresh s []
unfolding new_session
new_session-Fresh slew timeout is =
    let (sync, _, built) = bind_ok (dryer.Clock.Sync.new slew) _ is in
    rw (← ok-injective built) (record { bounded = omega arith; descending = tt; unused = λ h. tt })

-- In every session that is opened and then used in any way, the frames that its sinks are handed are
-- clock requests with strictly growing numbers, also past the last number of a u32: no number
-- reaches a sink twice, also where the sink refused the frame that carried it.
pub History-Descending :
    (session : ClockSession) (log : List (List ℕ))
    → History session log
    → (sequences : List ℕ) × Carried log sequences × Descending sequences
History-Descending session log history =
    let (ks, carried, fresh) = kept_of history in (ks, carried, fresh.descending)
  where
    kept_of : {s : ClockSession} {log : List (List ℕ)} → History s log → Kept s log
    kept_of (opened slew timeout is) = ([], tt, new_session-Fresh slew timeout is)
    kept_of (begun {session = s} {log = log} before send_frame now sink clock) =
        begin_session-Kept send_frame now s sink clock log (kept_of before)
    kept_of (accepted {session = s} {log = log} E before bytes at) =
        let (next, exhausted) = accept_at-SameCounter E s bytes at in
        let (ks, carried, fresh) = kept_of before in
        (ks, carried, same_counter s _ ks next exhausted fresh)
    kept_of (waited {session = s} {log = log} before now) =
        let (next, exhausted) = expire-SameCounter s now in
        let (ks, carried, fresh) = kept_of before in
        (ks, carried, same_counter s _ ks next exhausted fresh)
