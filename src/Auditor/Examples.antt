-- ===== src/Auditor/Examples.antt =====
-- The auditor at a job with one axis and one heater.
use dryer.Auditor.{AuditLimits, audit, audit_from, check_command}
use dryer.Auditor.Safe.{audit-Safe, Safe}
use dryer.Base.{ℕ, ◌≡◌, ◌↔◌, refl, true, false, List, [], ◌∷◌}
use dryer.Base.Int.{pos, negsuc, ◌+ℤ◌}
use dryer.Protocol.{Command, set_heater_target, home, move}

abbrev limits : AuditLimits
limits = record {
  axes = ((b'x' ∷ []), record { min_um = negsuc 99; max_um = pos 200 }) ∷ [];
  max_feed_rate_um_s = 500;
  heater_ceilings_milli_c = ((b'h' ∷ []), pos 60_000) ∷ [];
}

abbrev x_axis : List ℕ
x_axis = b'x' ∷ []

abbrev job : List Command
job =
    home x_axis 400
    ∷ move x_axis (pos 150) 500
    ∷ set_heater_target (b'h' ∷ []) (pos 60_000)
    ∷ move x_axis (negsuc 199) 500
    ∷ []

audit-Safe_example : ((audit limits job).passed ≡ true) ↔ Safe limits (λ _. pos 0) job
audit-Safe_example = audit-Safe limits job

job_passes : (audit limits job).passed ≡ true
unfolding audit audit_from check_command ◌+ℤ◌
job_passes = refl

-- Two moves that are each inside the bounds leave them together.
far_refused :
    (audit limits (move x_axis (pos 150) 500 ∷ move x_axis (pos 150) 500 ∷ [])).passed ≡ false
unfolding audit audit_from check_command ◌+ℤ◌
far_refused = refl
