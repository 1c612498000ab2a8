-- ===== src/Simulator/Clocks.antt =====
-- crates/simulator/src/clock_transport.rs: `ControllerClock`, and the configurations that a transport
-- accepts.
use dryer.Base.{
  ℕ, ◌+◌, ◌-◌, ◌*◌, ◌%◌, ◌^◌, ◌==◌, true, not, Option, none, some, [], Result, ok, err, ok_or, ltb,
  if◌then◌else◌,
}
use dryer.Base.Int.{ℤ, pos, negsuc, ◌+ℤ◌, ◌*ℤ◌, ltb_ℤ, checked, quotient}
use dryer.Base.Outcome.{◌>>=◌, refuse_if}
use dryer.Base.Words.{checked_sub_u64, checked_add_u64}
use dryer.Protocol.{Tick}
use dryer.Simulator.{
  ClockLinkConfig, ControllerClock, ControllerClockError, non_positive_rate, host_before_epoch,
  arithmetic_overflow, ClockTransportConfig, Direction, request_link, response_link,
  ClockTransportConfigError, invalid_loss_rate, invalid_duplication_rate, zero_pending_capacity,
  SimClockTransport,
}

abbrev pub parts_per_billion : ℕ
parts_per_billion = 1_000_000_000

unfoldable pub new_clock : Tick → Tick → ℤ → Result ControllerClockError ControllerClock
new_clock host_epoch controller_epoch rate_ppb =
    if not (ltb_ℤ (negsuc (parts_per_billion - 1)) rate_ppb)
    then err (non_positive_rate rate_ppb)
    else ok (record {
      host_epoch = host_epoch;
      controller_epoch = controller_epoch;
      rate_ppb = rate_ppb;
    })

-- `u64::try_from`.
abbrev pub to_u64 : ℤ → Option ℕ
to_u64 (pos n) = if ltb n (2 ^ 64) then some n else none
to_u64 (negsuc n) = none

unfoldable pub at : ControllerClock → Tick → Result ControllerClockError Tick
at clock host_tick = do
  elapsed ←
      ok_or (checked_sub_u64 host_tick clock.host_epoch)
        (host_before_epoch host_tick clock.host_epoch)
  rate ← ok_or (checked (pos parts_per_billion +ℤ clock.rate_ppb)) arithmetic_overflow
  product ← ok_or (checked (pos elapsed *ℤ rate)) arithmetic_overflow
  scaled ← ok_or (to_u64 (quotient product (pos parts_per_billion))) arithmetic_overflow
  ok_or (checked_add_u64 clock.controller_epoch scaled) arithmetic_overflow

unfoldable pub validate_link :
    Direction → ClockLinkConfig → Result ClockTransportConfigError (Unit {0})
validate_link direction link = do
  _ ← refuse_if (ltb 1_000 link.loss_per_mille) (invalid_loss_rate direction link.loss_per_mille)
  refuse_if (ltb 1_000 link.dup_per_mille) (invalid_duplication_rate direction link.dup_per_mille)

unfoldable pub new_transport :
    ClockTransportConfig → Result ClockTransportConfigError SimClockTransport
new_transport cfg = do
  _ ← validate_link request_link cfg.request
  _ ← validate_link response_link cfg.response
  _ ← refuse_if (cfg.max_pending == 0) zero_pending_capacity
  ok (record {
    cfg = cfg;
    rng = (cfg.seed * 2 + 1) % 2 ^ 64;
    next_insertion_order = 0;
    pending = [];
    link_up = true;
  })
