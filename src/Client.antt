-- ===== src/Client.antt =====
-- crates/control-client/src/lib.rs: the receipts, the errors and the states of the command client
-- and of the two clock exchanges. The transport's sink and the host's clock are parameters of the
-- operations that call them: a sink takes a frame and answers, a clock gives its tick.
pub mod Commands
pub mod Session
pub mod Exchange
pub mod Cluster
pub mod Sequences
pub mod Sessions
pub mod Answers
pub mod RoundTrip
pub mod Clusters
mod Examples
use dryer.Base.{ℕ, Bool, Option, List, Result}
use dryer.Base.Int.{ℤ}
use dryer.Clock.{HostTick, ClockSample, ClockEstimate, ClockSync, ClockSyncError}
use dryer.Protocol.{Str, EncodeError, DecodeError}

-- `FrameSink::send_frame` and `HostClock::now`, each with the new state of its object.
abbrev pub SendFrame : Type 0 → Type 0 → Type 0
SendFrame S E = S → List ℕ → Result E (Unit {0}) × S

abbrev pub Now : Type 0 → Type 0
Now C = C → HostTick × C

pub record SendReceipt : Type 0 where
  pub sequence : ℕ
  pub frame_len : ℕ

pub data SendError (E : Type 0) : Type 0 where
  encode : EncodeError → SendError E
  transport : E → SendError E

pub record CommandClient (S : Type 0) : Type 0 where
  pub sink : S
  pub next_sequence : ℕ
  pub frame : List ℕ

pub record ClockRequestReceipt : Type 0 where
  pub sequence : ℕ
  pub frame_len : ℕ

pub record ClockExchangeReceipt : Type 0 where
  pub sequence : ℕ
  pub sample : ClockSample
  pub estimate : Option ClockEstimate

pub record ClockTimeout : Type 0 where
  pub sequence : ℕ

pub data ClockSessionError (E : Type 0) : Type 0 where
  busy : (sequence : ℕ) → ClockSessionError E
  sequence_exhausted : ClockSessionError E
  encode : EncodeError → ClockSessionError E
  transport : E → ClockSessionError E
  sync : ClockSyncError → ClockSessionError E
  decode : DecodeError → ClockSessionError E
  no_pending : ClockSessionError E
  unexpected_sequence : (expected received : ℕ) → ClockSessionError E
  timed_out : (sequence : ℕ) → ClockSessionError E

pub record PendingClockExchange : Type 0 where
  pub sequence : ℕ
  pub host_send : HostTick

pub record ClockSession : Type 0 where
  pub sync : ClockSync
  pub next_sequence : ℕ
  pub exhausted : Bool
  pub timeout_ticks : ℕ
  pub pending : Option PendingClockExchange
  pub request : List ℕ

pub data ClockExchangeError : Type 0 where
  exchange_pending no_exchange_pending : ClockExchangeError
  sequence_mismatch : (expected received : ℕ) → ClockExchangeError
  decode : DecodeError → ClockExchangeError
  sync : ClockSyncError → ClockExchangeError

pub record ClockExchange : Type 0 where
  pub sync : ClockSync
  pub next_sequence : ℕ
  pub pending : Option (ℕ × HostTick)

-- The sessions by controller name, in the order of the names.
pub record MultiControllerClockSync : Type 0 where
  pub sessions : List (Str × ClockSession)
  pub max_slew_ppb : ℤ
  pub timeout_ticks : ℕ
