-- ===== src/Client/Exchange.antt =====
-- crates/control-client/src/lib.rs, `ClockExchange`.
use dryer.Base.{ℕ, ◌==◌, not, Option, none, some, List, Result, ok, err, if◌then◌else◌}
use dryer.Base.Int.{ℤ}
use dryer.Base.Outcome.{◌>>=◌}
use dryer.Client.{ClockExchange, ClockExchangeError}
use dryer.Client.Commands.{following}
use dryer.Clock.{HostTick, ClockSample, ClockEstimate, ClockSyncError}
use dryer.Clock.Sync.{push}
use dryer.Protocol.{ClockRequestFrame, ClockResponseFrame}
use dryer.Protocol.Decode.{decode_clock_response}

unfoldable pub new_exchange : ℤ → Result ClockSyncError ClockExchange
new_exchange max_slew_ppb = do
  sync ← dryer.Clock.Sync.new max_slew_ppb
  ok (record { sync = sync; next_sequence = 0; pending = none })

unfoldable pub begin_exchange :
    ClockExchange → HostTick → Result ClockExchangeError ClockRequestFrame × ClockExchange
begin_exchange exchange host_send = elim exchange.pending [
  | some _ ↦ (err ClockExchangeError.exchange_pending, exchange)
  | none ↦
      let sequence = exchange.next_sequence in
      (
        ok (record { sequence = sequence }),
        record exchange {
          next_sequence = following sequence;
          pending = some (sequence, host_send);
        },
      )
]

-- The exchange stays pending where the synchronizer refuses the sample.
unfoldable pub complete :
    ClockExchange
    → HostTick
    → ClockResponseFrame
    → Result ClockExchangeError (Option ClockEstimate) × ClockExchange
complete exchange host_receive response = elim exchange.pending [
  | none ↦ (err ClockExchangeError.no_exchange_pending, exchange)
  | some (expected, host_send) ↦
      if not (response.sequence == expected)
      then (err (ClockExchangeError.sequence_mismatch expected response.sequence), exchange)
      else let (pushed, sync) = push exchange.sync (record {
        host_send = host_send;
        controller_receive = response.response.controller_receive;
        controller_send = response.response.controller_send;
        host_receive = host_receive;
      }) in
        elim pushed [
          | err e ↦ (err (ClockExchangeError.sync e), record exchange { sync = sync })
          | ok estimate ↦ (ok estimate, record exchange { sync = sync; pending = none })
        ]
]

unfoldable pub complete_frame :
    ClockExchange
    → HostTick
    → List ℕ
    → Result ClockExchangeError (Option ClockEstimate) × ClockExchange
complete_frame exchange host_receive input = elim (decode_clock_response input) [
  | err e ↦ (err (ClockExchangeError.decode e), exchange)
  | ok response ↦ complete exchange host_receive response
]
