-- ===== src/Client/Cluster.antt =====
-- crates/control-client/src/lib.rs, `MultiControllerClockSync`.
use dryer.Base.{
  ℕ, Bool, true, false, not, ◌&&◌, Option, none, some, List, [], ◌∷◌, Result, ok, err, length,
}
use dryer.Base.Int.{ℤ}
use dryer.Base.Names.{lookup, insert}
use dryer.Client.{ClockSession, MultiControllerClockSync}
use dryer.Client.Session.{new_session}
use dryer.Clock.{ClockSyncError}
use dryer.Protocol.{Str}

abbrev pub new_cluster : ℤ → ℕ → MultiControllerClockSync
new_cluster max_slew_ppb timeout_ticks = record {
  sessions = [];
  max_slew_ppb = max_slew_ppb;
  timeout_ticks = timeout_ticks;
}

unfoldable pub add_controller :
    MultiControllerClockSync → Str → Result ClockSyncError (Unit {0}) × MultiControllerClockSync
add_controller cluster name = elim (new_session cluster.max_slew_ppb cluster.timeout_ticks) [
  | err e ↦ (err e, cluster)
  | ok session ↦ (ok tt, record cluster { sessions = insert name session cluster.sessions })
]

abbrev pub session : MultiControllerClockSync → Str → Option ClockSession
session cluster name = lookup cluster.sessions name

abbrev pub has_estimate : ClockSession → Bool
has_estimate s = elim s.sync.estimate [ none ↦ false | some _ ↦ true ]

abbrev pub all_synchronized : List (Str × ClockSession) → Bool
all_synchronized [] = true
all_synchronized ((name, s) ∷ rest) = has_estimate s && all_synchronized rest

abbrev is_empty : List (Str × ClockSession) → Bool
is_empty [] = true
is_empty (s ∷ rest) = false

unfoldable pub is_cluster_synchronized : MultiControllerClockSync → Bool
is_cluster_synchronized cluster =
    not (is_empty cluster.sessions) && all_synchronized cluster.sessions

abbrev pub controller_count : MultiControllerClockSync → ℕ
controller_count cluster = length cluster.sessions
