-- ===== src/Simulator/Requests.antt =====
-- crates/simulator/src/clock_transport.rs: what `send_request` does to the transport.
use dryer.Base.{ℕ, ◌^◌, ◌≤◌, ◌<◌, ◌≡◌, true, false, ◌⊎◌, List, ◌++◌, Result, ok, err, All, length}
use dryer.Base.Words.{usize_max}
use dryer.Protocol.{Tick}
use dryer.Simulator.{ScheduledResponse, SimClockTransport, SimClockTransportError}
use dryer.Simulator.Reads.{RunsAt}
use dryer.Simulator.Schedule.{Answered}

-- The answer of `send_request` for a request that decodes, and the transport after it.
abbrev pub Sent :
    SimClockTransport
    → Tick
    → ℕ
    → Result SimClockTransportError (Unit {0}) × SimClockTransport
    → Type 0
Sent t host_send sequence (err e, t') = t' ≡ t
Sent t host_send sequence (ok _, t') =
    (t.link_up ≡ false) × (t' ≡ t)
    ⊎ ((t.link_up ≡ true)
        × ((added : List ScheduledResponse) × (t'.pending ≡ t.pending ++ added)
            × All (Answered t.cfg host_send sequence) added
            × (length added ≤ 4)
            × (t'.cfg ≡ t.cfg)
            × (t'.link_up ≡ true)
            × (length t'.pending ≤ t.cfg.max_pending)))

module _ (t : SimClockTransport) (rate host_send sequence : ℕ)
    (runs : RunsAt t.cfg.controller_clock rate) (fits : sequence < 2 ^ 32)
    (bounded : t.cfg.max_pending < usize_max) where
  Grown : SimClockTransport → Type 0
  Grown t' =
      (added : List ScheduledResponse) × (t'.pending ≡ t.pending ++ added)
      × All (Answered t.cfg host_send sequence) added
      × (length added ≤ 4)
      × (t'.cfg ≡ t.cfg)
      × (t'.link_up ≡ t.link_up)
      × (length t'.pending ≤ t.cfg.max_pending)

  -- On success, where an error may leave anything.
  Good : Result SimClockTransportError (Unit {0}) × SimClockTransport → Type 0
  Good (ok _, t') = Grown t'
  Good (err e, t') = Unit {0}
