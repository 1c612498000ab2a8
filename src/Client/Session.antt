-- ===== src/Client/Session.antt =====
-- crates/control-client/src/lib.rs, `ClockSession`.
use dryer.Base.{
  ℕ, ◌-◌, ◌^◌, ◌==◌, Bool, false, not, Option, none, some, List, Result, ok, err, ok_or, map_err,
  leb, take, replicate, if◌then◌else◌,
}
use dryer.Base.Int.{ℤ}
use dryer.Base.Outcome.{◌>>=◌, ◌>>◌, refuse_if}
use dryer.Client.{
  SendFrame, Now, ClockRequestReceipt, ClockExchangeReceipt, ClockTimeout, ClockSessionError,
  PendingClockExchange, ClockSession,
}
use dryer.Client.Commands.{following}
use dryer.Clock.{HostTick, ClockSample, ClockSyncError}
use dryer.Clock.Sync.{push}
use dryer.Protocol.{clock_request_frame_len, ClockResponseFrame}
use dryer.Protocol.Decode.{decode_clock_response}
use dryer.Protocol.Encode.{encode_clock_request}

unfoldable pub new_session : ℤ → ℕ → Result ClockSyncError ClockSession
new_session max_slew_ppb timeout_ticks = do
  sync ← dryer.Clock.Sync.new max_slew_ppb
  ok (record {
    sync = sync;
    next_sequence = 0;
    exhausted = false;
    timeout_ticks = timeout_ticks;
    pending = none;
    request = replicate clock_request_frame_len 0;
  })

-- `host_receive.saturating_sub(host_send) >= timeout_ticks`
abbrev pub expired : ClockSession → PendingClockExchange → HostTick → Bool
expired session pending now = leb session.timeout_ticks (now - pending.host_send)

abbrev pub retire : ClockSession → ClockSession
retire session = record session { pending = none }

unfoldable pub expire : ClockSession → HostTick → Option ClockTimeout × ClockSession
expire session now = elim session.pending [
  | none ↦ (none, session)
  | some pending ↦
      if expired session pending now
      then (some (record { sequence = pending.sequence }), retire session)
      else (none, session)
]

abbrev pub sample_of : PendingClockExchange → ClockResponseFrame → HostTick → ClockSample
sample_of pending response host_receive = record {
  host_send = pending.host_send;
  controller_receive = response.response.controller_receive;
  controller_send = response.response.controller_send;
  host_receive = host_receive;
}

module _ {E : Type 0} where
  -- The response that `accept_response` goes on with, and the pending exchange.
  unfoldable pub correlate :
      ClockSession
      → List ℕ
      → Result (ClockSessionError E) (ClockResponseFrame × PendingClockExchange)
  correlate session bytes = do
    response ← map_err ClockSessionError.decode (decode_clock_response bytes)
    pending ← ok_or session.pending ClockSessionError.no_pending
    refuse_if (not (response.sequence == pending.sequence))
        (ClockSessionError.unexpected_sequence pending.sequence response.sequence)
    ok (response, pending)

  -- The end of `accept_response`: the exchange is retired, and the sample is pushed.
  abbrev pub conclude :
      ClockSession
      → PendingClockExchange
      → ClockSample
      → Result (ClockSessionError E) ClockExchangeReceipt × ClockSession
  conclude session pending sample =
      let (pushed, sync) = push session.sync sample in
      let session' = record session { pending = none; sync = sync } in
      elim pushed [
        | err e ↦ (err (ClockSessionError.sync e), session')
        | ok estimate ↦ (
          ok (record { sequence = pending.sequence; sample = sample; estimate = estimate }),
          session',
        )
      ]

  unfoldable pub accept_at :
      ClockSession
      → List ℕ
      → HostTick
      → Result (ClockSessionError E) ClockExchangeReceipt × ClockSession
  accept_at session bytes host_receive = elim (correlate session bytes) [
    | err e ↦ (err e, session)
    | ok (response, pending) ↦
        if expired session pending host_receive
        then (err (ClockSessionError.timed_out pending.sequence), retire session)
        else conclude session pending (sample_of pending response host_receive)
  ]

  -- The clock is read first.
  abbrev pub accept_response :
      {C : Type 0} (now : Now C)
      → ClockSession
      → List ℕ
      → C
      → (Result (ClockSessionError E) ClockExchangeReceipt × ClockSession) × C
  accept_response now session bytes clock =
      let (host_receive, clock') = now clock in (accept_at session bytes host_receive, clock')

module _ {S E C : Type 0} (send_frame : SendFrame S E) (now : Now C) where
  -- What follows the encoding: the sequence is committed, the clock is read, the request is sent,
  -- and the exchange is pending when the sink took it.
  abbrev pub issue :
      ClockSession
      → S
      → C
      → (frame_len : ℕ) (request : List ℕ)
      → Result (ClockSessionError E) ClockRequestReceipt × ClockSession × S × C
  issue session sink clock frame_len request =
      let sequence = session.next_sequence in
      let session' = record session {
        exhausted = sequence == 2 ^ 32 - 1;
        next_sequence = following sequence;
        request = request;
      } in
      let (host_send, clock') = now clock in
      let (sent, sink') = send_frame sink (take frame_len request) in
      elim sent [
        | err e ↦ (err (ClockSessionError.transport e), session', sink', clock')
        | ok _ ↦ (
          ok (record { sequence = sequence; frame_len = frame_len }),
          record session' {
            pending = some (record { sequence = sequence; host_send = host_send });
          },
          sink',
          clock',
        )
      ]

  unfoldable pub begin_session :
      ClockSession → S → C → Result (ClockSessionError E) ClockRequestReceipt × ClockSession × S × C
  begin_session session sink clock = elim session.pending [
    | some pending ↦ (err (ClockSessionError.busy pending.sequence), session, sink, clock)
    | none ↦
        if session.exhausted
        then (err ClockSessionError.sequence_exhausted, session, sink, clock)
        else let (encoded, request) =
            encode_clock_request (record { sequence = session.next_sequence }) session.request in
          elim encoded [
            | err e ↦ (
              err (ClockSessionError.encode e),
              record session { request = request },
              sink,
              clock,
            )
            | ok frame_len ↦ issue session sink clock frame_len request
          ]
  ]
