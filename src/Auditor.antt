-- ===== src/Auditor.antt =====
-- crates/toolpath-auditor/src/lib.rs: the limits, the diagnostics and the audit of a sequence of
-- commands. A message is kept as the values that its text is made from.
pub mod Safe
mod Examples
use dryer.Base.{
  ℕ, suc, ◌+◌, ◌-◌, ◌^◌, Bool, true, false, ◌&&◌, ◌||◌, Option, none, some, List, [], ◌∷◌, ◌++◌,
  length, ltb, if◌then◌else◌,
}
use dryer.Base.Int.{ℤ, pos, negsuc, ◌+ℤ◌, ltb_ℤ}
use dryer.Base.Names.{lookup, insert}
use dryer.Protocol.{Str, Command, heartbeat, set_heater_target, home, move}

pub record AxisLimit : Type 0 where
  pub min_um : ℤ
  pub max_um : ℤ

pub record AuditLimits : Type 0 where
  pub axes : List (Str × AxisLimit)
  pub max_feed_rate_um_s : ℕ
  pub heater_ceilings_milli_c : List (Str × ℤ)

pub data AuditMessage : Type 0 where
  unknown_heater : (heater : Str) → AuditMessage
  above_ceiling : (heater : Str) (target ceiling : ℤ) → AuditMessage
  homing_too_fast : (rate maximum : ℕ) → AuditMessage
  move_too_fast : (rate maximum : ℕ) → AuditMessage
  outside_bounds : (axis : Str) (position least most : ℤ) → AuditMessage

-- The texts "A001" to "A004".
pub data AuditCode : Type 0 where
  a001 a002 a003 a004 : AuditCode

pub record AuditDiagnostic : Type 0 where
  pub code : AuditCode
  pub command_index : ℕ
  pub message : AuditMessage

pub record AuditReport : Type 0 where
  pub passed : Bool
  pub commands_audited : ℕ
  pub diagnostics : List AuditDiagnostic

abbrev pub diagnose : Bool → AuditCode → ℕ → AuditMessage → List AuditDiagnostic
diagnose test code index message =
    if test then record { code = code; command_index = index; message = message } ∷ [] else []

-- `i64::saturating_add`.
abbrev pub saturating_add_i64 : ℤ → ℤ → ℤ
saturating_add_i64 a b =
    let total = a +ℤ b in
    if ltb_ℤ (pos (2 ^ 63 - 1)) total
    then pos (2 ^ 63 - 1)
    else if ltb_ℤ total (negsuc (2 ^ 63 - 1))
    then negsuc (2 ^ 63 - 1)
    else total

abbrev pub too_fast : AuditLimits → ℕ → Bool
too_fast limits rate = ltb 0 limits.max_feed_rate_um_s && ltb limits.max_feed_rate_um_s rate

abbrev pub Positions : Type 0
Positions = List (Str × ℤ)

abbrev pub or_zero : Option ℤ → ℤ
or_zero none = pos 0
or_zero (some p) = p

-- `positions.get(axis).copied().unwrap_or(0)`
abbrev pub position_of : Positions → Str → ℤ
position_of positions axis = or_zero (lookup positions axis)

abbrev pub moved_to : Positions → Str → ℤ → ℤ
moved_to positions axis distance = saturating_add_i64 (position_of positions axis) distance

abbrev pub positions_after : Positions → Command → Positions
positions_after positions heartbeat = positions
positions_after positions (set_heater_target heater target) = positions
positions_after positions (home axis rate) = insert axis (pos 0) positions
positions_after positions (move axis distance rate) =
    insert axis (moved_to positions axis distance) positions

abbrev pub judge_target : ℕ → Str → ℤ → Option ℤ → List AuditDiagnostic
judge_target index heater target none = diagnose true a004 index (unknown_heater heater)
judge_target index heater target (some ceiling) =
    diagnose (ltb_ℤ ceiling target) a003 index (above_ceiling heater target ceiling)

abbrev pub judge_position : ℕ → Str → ℤ → Option AxisLimit → List AuditDiagnostic
judge_position index axis position none = []
judge_position index axis position (some limit) =
    diagnose (ltb_ℤ position limit.min_um || ltb_ℤ limit.max_um position) a001 index
      (outside_bounds axis position limit.min_um limit.max_um)

unfoldable pub check_command : AuditLimits → ℕ → Positions → Command → List AuditDiagnostic
check_command limits index positions heartbeat = []
check_command limits index positions (set_heater_target heater target) =
    judge_target index heater target (lookup limits.heater_ceilings_milli_c heater)
check_command limits index positions (home axis rate) =
    diagnose (too_fast limits rate) a002 index (homing_too_fast rate limits.max_feed_rate_um_s)
check_command limits index positions (move axis distance rate) =
    diagnose (too_fast limits rate) a002 index (move_too_fast rate limits.max_feed_rate_um_s)
    ++ judge_position index axis (moved_to positions axis distance) (lookup limits.axes axis)

unfoldable pub audit_from : AuditLimits → ℕ → Positions → List Command → List AuditDiagnostic
audit_from limits index positions [] = []
audit_from limits index positions (c ∷ cs) =
    check_command limits index positions c
    ++ audit_from limits (suc index) (positions_after positions c) cs

abbrev pub no_diagnostics : List AuditDiagnostic → Bool
no_diagnostics [] = true
no_diagnostics (d ∷ ds) = false

unfoldable pub audit : AuditLimits → List Command → AuditReport
audit limits commands =
    let diagnostics = audit_from limits 0 [] commands in
    record {
      passed = no_diagnostics diagnostics;
      commands_audited = length commands;
      diagnostics = diagnostics;
    }
