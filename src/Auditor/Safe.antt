-- ===== src/Auditor/Safe.antt =====
-- crates/toolpath-auditor/src/lib.rs: what a passed audit means, apart from the code that finds
-- it out.
use dryer.Auditor.{
  AuditLimits, AxisLimit, AuditCode, a002, AuditMessage, move_too_fast, AuditDiagnostic, Positions,
  diagnose, no_diagnostics, saturating_add_i64, too_fast, position_of, positions_after,
  judge_target, judge_position, or_zero, check_command, audit_from, audit,
}
use dryer.Base.{
  ℕ, suc, ◌≤◌, ◌≡◌, ◌⊎◌, ◌↔◌, ◌∙◌, refl, ap, Bool, true, false, not, ◌&&◌, inl, inr, Option, none,
  some, List, [], ◌∷◌, ◌++◌, Bool-cases, some-injective, if◌then◌else◌, arith,
}
use dryer.Base.Int.{ℤ, pos, ◌≤ℤ◌}
use dryer.Base.Names.{lookup, insert, same_bytes, same_bytes→≡, lookup-insert, lookup-insert_other}
use dryer.Protocol.{Str, Command, heartbeat, set_heater_target, home, move}

-- Where each axis is, by its name.
abbrev pub At : Type 0
At = Str → ℤ

abbrev pub put : At → Str → ℤ → At
put at axis p name = if same_bytes axis name then p else at name

abbrev pub after : At → Command → At
after at heartbeat = at
after at (set_heater_target heater target) = at
after at (home axis rate) = put at axis (pos 0)
after at (move axis distance rate) = put at axis (saturating_add_i64 (at axis) distance)

-- A feed rate of 0 in the limits stands for none.
abbrev pub SlowEnough : AuditLimits → ℕ → Type 0
SlowEnough limits rate = (limits.max_feed_rate_um_s ≡ 0) ⊎ (rate ≤ limits.max_feed_rate_um_s)

abbrev pub Inside : AuditLimits → Str → ℤ → Type 0
Inside limits axis p =
    (limit : AxisLimit)
    → lookup limits.axes axis ≡ some limit
    → (limit.min_um ≤ℤ p) × (p ≤ℤ limit.max_um)

abbrev pub Permitted : AuditLimits → At → Command → Type 0
Permitted limits at heartbeat = Unit {0}
Permitted limits at (set_heater_target heater target) =
    (ceiling : ℤ) × (lookup limits.heater_ceilings_milli_c heater ≡ some ceiling)
    × (target ≤ℤ ceiling)
Permitted limits at (home axis rate) = SlowEnough limits rate
Permitted limits at (move axis distance rate) =
    SlowEnough limits rate × Inside limits axis (saturating_add_i64 (at axis) distance)

abbrev pub Safe : AuditLimits → At → List Command → Type 0
Safe limits at [] = Unit {0}
Safe limits at (c ∷ cs) = Permitted limits at c × Safe limits (after at c) cs

-- The code's map of positions tells where every axis is.
abbrev Tells : Positions → At → Type 0
Tells positions at = (name : Str) → position_of positions name ≡ at name

insert-Tells :
    (positions : Positions) (at : At) (axis : Str) (p : ℤ)
    → Tells positions at
    → Tells (insert axis p positions) (put at axis p)
insert-Tells positions at axis p tells name = elim (Bool-cases (same_bytes axis name)) [
  | inl same ↦
      rw (same, ← same_bytes→≡ axis name same) (ap or_zero (lookup-insert axis p positions))
  | inr apart ↦ rw apart (ap or_zero (lookup-insert_other axis name p positions apart) ∙ tells name)
]

after-Tells :
    (positions : Positions) (at : At) (c : Command)
    → Tells positions at
    → Tells (positions_after positions c) (after at c)
after-Tells positions at heartbeat tells = tells
after-Tells positions at (set_heater_target heater target) tells = tells
after-Tells positions at (home axis rate) tells = insert-Tells positions at axis (pos 0) tells
after-Tells positions at (move axis distance rate) tells =
    rw (tells axis) (insert-Tells positions at axis (saturating_add_i64 (at axis) distance) tells)

no_diagnostics-append :
    (xs ys : List AuditDiagnostic)
    → no_diagnostics (xs ++ ys) ≡ (no_diagnostics xs && no_diagnostics ys)
no_diagnostics-append [] ys = refl
no_diagnostics-append (x ∷ xs) ys = refl

both_true : (a b : Bool) → (a && b) ≡ true → (a ≡ true) × (b ≡ true)
both_true true b h = (refl, h)
both_true false b h = cc

both_iff :
    {a b : Bool} {P Q : Type 0} → (a ≡ true) ↔ P → (b ≡ true) ↔ Q → ((a && b) ≡ true) ↔ (P × Q)
both_iff {a} {b} (p, p') (q, q') =
    (λ h. let (l, r) = both_true a b h in (p l, q r), λ (l, r). rw (p' l, q' r) refl)

no_diagnostics-diagnose :
    (test : Bool) (code : AuditCode) (index : ℕ) (message : AuditMessage)
    → no_diagnostics (diagnose test code index message) ≡ not test
no_diagnostics-diagnose true code index message = refl
no_diagnostics-diagnose false code index message = refl

too_fast-SlowEnough :
    (limits : AuditLimits) (rate : ℕ) → (not (too_fast limits rate) ≡ true) ↔ SlowEnough limits rate
too_fast-SlowEnough limits rate = ground arith

judge_target_iff :
    (index : ℕ) (heater : Str) (target : ℤ) (found : Option ℤ)
    → (no_diagnostics (judge_target index heater target found) ≡ true)
      ↔ ((ceiling : ℤ) × (found ≡ some ceiling) × (target ≤ℤ ceiling))
judge_target_iff index heater target none = (λ h. cc, λ (c, e, h). cc)
judge_target_iff index heater target (some ceiling) = (
  λ h. (ceiling, refl, ground arith),
  λ (c, e, h). let same = some-injective e in ground (arith, rw (← same) at h),
)

judge_position_iff :
    (index : ℕ) (axis : Str) (p : ℤ) (found : Option AxisLimit)
    → (no_diagnostics (judge_position index axis p found) ≡ true)
      ↔ ((limit : AxisLimit) → found ≡ some limit → (limit.min_um ≤ℤ p) × (p ≤ℤ limit.max_um))
judge_position_iff index axis p none = (λ h limit e. cc, λ h. refl)
judge_position_iff index axis p (some limit) = (
  λ h limit' e. rw (← some-injective e) (ground arith),
  λ h. let inside = h limit refl in ground arith,
)

check_command_iff :
    (limits : AuditLimits) (index : ℕ) (positions : Positions) (at : At) (c : Command)
    → Tells positions at
    → (no_diagnostics (check_command limits index positions c) ≡ true) ↔ Permitted limits at c
unfolding check_command
check_command_iff limits index positions at heartbeat tells = (λ h. tt, λ h. refl)
check_command_iff limits index positions at (set_heater_target heater target) tells =
    judge_target_iff index heater target (lookup limits.heater_ceilings_milli_c heater)
check_command_iff limits index positions at (home axis rate) tells = ground arith
check_command_iff limits index positions at (move axis distance rate) tells =
    rw
      (
        tells axis,
        no_diagnostics-append slow inside,
        no_diagnostics-diagnose (too_fast limits rate) a002 index
            (move_too_fast rate limits.max_feed_rate_um_s),
      )
      (both_iff (too_fast-SlowEnough limits rate)
        (judge_position_iff index axis p (lookup limits.axes axis)))
  where
    p : ℤ
    p = saturating_add_i64 (at axis) distance

    slow : List AuditDiagnostic
    slow = diagnose (too_fast limits rate) a002 index (move_too_fast rate limits.max_feed_rate_um_s)

    inside : List AuditDiagnostic
    inside = judge_position index axis p (lookup limits.axes axis)

audit_from_iff :
    (limits : AuditLimits) (index : ℕ) (positions : Positions) (at : At) (cs : List Command)
    → Tells positions at
    → (no_diagnostics (audit_from limits index positions cs) ≡ true) ↔ Safe limits at cs
unfolding audit_from
audit_from_iff limits index positions at [] tells = (λ h. tt, λ h. refl)
audit_from_iff limits index positions at (c ∷ cs) tells =
    rw
      (no_diagnostics-append (check_command limits index positions c)
        (audit_from limits (suc index) (positions_after positions c) cs))
      (both_iff (check_command_iff limits index positions at c tells) (
        audit_from_iff limits (suc index) (positions_after positions c) (after at c) cs
          (after-Tells positions at c tells)))

-- An audit passes exactly when every command is permitted: each heater is known and its target
-- not above its ceiling, each rate within the maximum, and each axis inside its limits at the
-- position that the moves since its last homing add up to, saturating, from 0 at the start.
pub audit-Safe :
    (limits : AuditLimits) (commands : List Command)
    → ((audit limits commands).passed ≡ true) ↔ Safe limits (λ _. pos 0) commands
unfolding audit
audit-Safe limits commands = audit_from_iff limits 0 [] (λ _. pos 0) commands (λ name. refl)
