-- ===== src/Clock/Projected.antt =====
-- What a projection of crates/clock-sync/src/lib.rs is made of: the inversion of `project`.
use dryer.Base.{
  ℕ, suc, ◌+◌, ◌-◌, ◌*◌, ◌≤◌, ◌≡◌, ap, Option, none, some, ok, ok_or, ltb, if◌then◌else◌, arith,
}
use dryer.Base.Int.{
  ℤ, pos, negsuc, pos_part, neg_part, magnitude, ◌-ℤ◌, ◌*ℤ◌, quotient, ltb_ℤ, min_ℤ, max_ℤ,
  -ℤ_parts, one_sided,
}
use dryer.Base.Outcome.{bind_ok, then_ok, ok-injective, refuse_if}
use dryer.Clock.{ClockSync, ClockEstimate, estimate_unavailable, host_tick_before_session}
use dryer.Clock.Arith.{add, sub, mul, neg, div_floor, div_ceil}
use dryer.Clock.Covers.{mul_mono}
use dryer.Clock.Division.{
  sub_ok, add_parts, sub_parts, mul_ok, neg_ok, div_floor_bounds, div_ceil_bounds,
}
use dryer.Clock.Sync.{project}

-- The rates that `project` picks are outside the slew bound on both sides, so that a product with
-- the elapsed ticks is at most minus, or at least plus, the slew over those ticks.
low_product :
    (e m M : ℤ) (slew : ℕ)
    → pos_part m + slew ≤ neg_part m
    → slew + neg_part M ≤ pos_part M
    → let p = e *ℤ (if ltb_ℤ e (pos 0) then M else m) in
      pos_part p + slew * magnitude e ≤ neg_part p
unfolding ◌*ℤ◌
low_product (pos e) (pos m) M slew below above = ground (arith, mul_mono e slew 0)
low_product (pos e) (negsuc m) M slew below above = ground (arith, mul_mono e slew (suc m))
low_product (negsuc e) m (pos M) slew below above = ground (arith, mul_mono (suc e) slew M)
low_product (negsuc e) m (negsuc M) slew below above = absurd (omega arith)

high_product :
    (e m M : ℤ) (slew : ℕ)
    → pos_part m + slew ≤ neg_part m
    → slew + neg_part M ≤ pos_part M
    → let p = e *ℤ (if ltb_ℤ e (pos 0) then m else M) in
      slew * magnitude e + neg_part p ≤ pos_part p
unfolding ◌*ℤ◌
high_product (negsuc e) (pos m) M slew below above = ground (arith, mul_mono (suc e) slew 0)
high_product (negsuc e) (negsuc m) M slew below above =
    ground (arith, mul_mono (suc e) slew (suc m))
high_product (pos e) m (pos M) slew below above = ground (arith, mul_mono e slew M)
high_product (pos e) m (negsuc M) slew below above = absurd (omega arith)

min_below :
    (d : ℤ) (slew : ℕ) → let m = min_ℤ d (pos 0 -ℤ pos slew) in pos_part m + slew ≤ neg_part m
min_below d slew = ground (arith, -ℤ_parts (pos 0) (pos slew), one_sided (pos 0 -ℤ pos slew))

max_above : (d : ℤ) (slew : ℕ) → let M = max_ℤ d (pos slew) in slew + neg_part M ≤ pos_part M
max_above d slew = ground (arith, one_sided d)

-- A projection at a host tick for a slew bound that is a number.
pub record Projected (sync : ClockSync) (slew : ℕ) (host : ℕ) (p : ℤ × ℤ × ℤ) : Type 0 where
  pub estimate : ClockEstimate
  pub available : sync.estimate ≡ some estimate
  pub distance : ℕ
  pub apart :
      distance ≡ (host - estimate.anchor.reference_host) + (estimate.anchor.reference_host - host)
  pub lowest :
      1_000_000_000 * (pos_part p.0 + neg_part estimate.anchor.offset_min_ticks) + slew * distance
      ≤ 1_000_000_000 * (neg_part p.0 + host + pos_part estimate.anchor.offset_min_ticks)
  pub highest :
      1_000_000_000 * (neg_part p.2 + host + pos_part estimate.anchor.offset_max_ticks)
        + slew * distance
      ≤ 1_000_000_000 * (pos_part p.2 + neg_part estimate.anchor.offset_max_ticks)
  pub centred :
      pos_part p.1 + neg_part p.0 + neg_part (quotient (p.2 -ℤ p.0) (pos 2))
      ≡ neg_part p.1 + pos_part p.0 + pos_part (quotient (p.2 -ℤ p.0) (pos 2))

available_ok :
    {A : Type 0} (o : Option A) {a : A} → ok_or o estimate_unavailable ≡ ok a → o ≡ some a
available_ok none h = cc
available_ok (some a) h = ap some (ok-injective h)

magnitude_apart : (a b : ℕ) {e : ℤ} → sub (pos a) (pos b) ≡ ok e → magnitude e ≡ (a - b) + (b - a)
magnitude_apart a b {e = pos e} h = omega (arith, sub_parts (pos a) (pos b) h)
magnitude_apart a b {e = negsuc e} h = omega (arith, sub_parts (pos a) (pos b) h)

low_drift_ok :
    (e m M : ℤ) (slew : ℕ) {n p q : ℤ}
    → neg (pos slew) ≡ ok n
    → mul e (if ltb_ℤ e (pos 0) then max_ℤ M (pos slew) else min_ℤ m n) ≡ ok p
    → div_floor p (pos 1_000_000_000) ≡ ok q
    → 1_000_000_000 * pos_part q + slew * magnitude e ≤ 1_000_000_000 * neg_part q
low_drift_ok e m M slew {n} {p} {q} n_is p_is q_is =
    omega (arith, div_floor_bounds p 1_000_000_000 (omega arith) q_is, product)
  where
    product : pos_part p + slew * magnitude e ≤ neg_part p
    product =
        rw
          (
            mul_ok e (if ltb_ℤ e (pos 0) then max_ℤ M (pos slew) else min_ℤ m n) p_is,
            neg_ok (pos slew) n_is,
          )
          (low_product e (min_ℤ m (pos 0 -ℤ pos slew)) (max_ℤ M (pos slew)) slew (min_below m slew)
            (max_above M slew))

high_drift_ok :
    (e m M : ℤ) (slew : ℕ) {n p q : ℤ}
    → neg (pos slew) ≡ ok n
    → mul e (if ltb_ℤ e (pos 0) then min_ℤ m n else max_ℤ M (pos slew)) ≡ ok p
    → div_ceil p (pos 1_000_000_000) ≡ ok q
    → slew * magnitude e + 1_000_000_000 * neg_part q ≤ 1_000_000_000 * pos_part q
high_drift_ok e m M slew {n} {p} {q} n_is p_is q_is =
    omega (arith, div_ceil_bounds p 1_000_000_000 (omega arith) q_is, product)
  where
    product : slew * magnitude e + neg_part p ≤ pos_part p
    product =
        rw
          (
            mul_ok e (if ltb_ℤ e (pos 0) then min_ℤ m n else max_ℤ M (pos slew)) p_is,
            neg_ok (pos slew) n_is,
          )
          (high_product e (min_ℤ m (pos 0 -ℤ pos slew)) (max_ℤ M (pos slew)) slew (min_below m slew)
            (max_above M slew))

-- The intermediate values of `project`, each with the step that it came from.
assemble :
    (sync : ClockSync) (slew host : ℕ) {p : ℤ × ℤ × ℤ} (estimate : ClockEstimate)
    (elapsed n low_p low_d high_p high_d offset_l offset_h low high width middle : ℤ)
    → sync.max_slew_ppb ≡ pos slew
    → ok_or sync.estimate estimate_unavailable ≡ ok estimate
    → sub (pos host) (pos estimate.anchor.reference_host) ≡ ok elapsed
    → neg sync.max_slew_ppb ≡ ok n
    → let least = min_ℤ estimate.drift.min_ppb n in
      let most = max_ℤ estimate.drift.max_ppb sync.max_slew_ppb in
      mul elapsed (if ltb_ℤ elapsed (pos 0) then most else least) ≡ ok low_p
      → div_floor low_p (pos 1_000_000_000) ≡ ok low_d
      → mul elapsed (if ltb_ℤ elapsed (pos 0) then least else most) ≡ ok high_p
      → div_ceil high_p (pos 1_000_000_000) ≡ ok high_d
      → add estimate.anchor.offset_min_ticks low_d ≡ ok offset_l
      → add estimate.anchor.offset_max_ticks high_d ≡ ok offset_h
      → add (pos host) offset_l ≡ ok low
      → add (pos host) offset_h ≡ ok high
      → sub high low ≡ ok width
      → add low (quotient width (pos 2)) ≡ ok middle
      → (low, middle, high) ≡ p
      → Projected sync slew host p
assemble sync slew host estimate elapsed n low_p low_d high_p high_d offset_l offset_h low high
      width middle bound estimate_is elapsed_is n_is low_p_is low_d_is high_p_is high_d_is
      offset_l_is offset_h_is low_is high_is width_is middle_is p_is =
    rw (← p_is) (record {
      estimate = estimate;
      available = available_ok sync.estimate estimate_is;
      distance = magnitude elapsed;
      apart = magnitude_apart host estimate.anchor.reference_host elapsed_is;
      lowest = omega (
        arith,
        add_parts estimate.anchor.offset_min_ticks low_d offset_l_is,
        add_parts (pos host) offset_l low_is,
        low_drift_ok elapsed estimate.drift.min_ppb estimate.drift.max_ppb slew (rw bound at n_is)
            (rw bound at low_p_is) low_d_is,
      );
      highest = omega (
        arith,
        add_parts estimate.anchor.offset_max_ticks high_d offset_h_is,
        add_parts (pos host) offset_h high_is,
        high_drift_ok elapsed estimate.drift.min_ppb estimate.drift.max_ppb slew (rw bound at n_is)
            (rw bound at high_p_is) high_d_is,
      );
      centred = rw (← sub_ok high low width_is) (add_parts low (quotient width (pos 2)) middle_is);
    })

pub project_ok :
    (sync : ClockSync) (slew host : ℕ) {p : ℤ × ℤ × ℤ}
    → sync.max_slew_ppb ≡ pos slew
    → project sync host ≡ ok p
    → Projected sync slew host p
unfolding project
project_ok sync slew host {p} bound chain =
    let (estimate, estimate_is, c₁) = bind_ok (ok_or sync.estimate estimate_unavailable) _ chain in
    let (start, _, c₂) = bind_ok (ok_or sync.session_start estimate_unavailable) _ c₁ in
    let (_, c₃) = then_ok (refuse_if (ltb host start) host_tick_before_session) _ c₂ in
    let (elapsed, elapsed_is, c₄) =
      bind_ok (sub (pos host) (pos estimate.anchor.reference_host)) _ c₃ in
    let (n, n_is, c₅) = bind_ok (neg sync.max_slew_ppb) _ c₄ in
    let least = min_ℤ estimate.drift.min_ppb n in
    let most = max_ℤ estimate.drift.max_ppb sync.max_slew_ppb in
    let (low_p, low_p_is, c₆) =
      bind_ok (mul elapsed (if ltb_ℤ elapsed (pos 0) then most else least)) _ c₅ in
    let (low_d, low_d_is, c₇) = bind_ok (div_floor low_p (pos 1_000_000_000)) _ c₆ in
    let (high_p, high_p_is, c₈) =
      bind_ok (mul elapsed (if ltb_ℤ elapsed (pos 0) then least else most)) _ c₇ in
    let (high_d, high_d_is, c₉) = bind_ok (div_ceil high_p (pos 1_000_000_000)) _ c₈ in
    let (offset_l, offset_l_is, d₁) = bind_ok (add estimate.anchor.offset_min_ticks low_d) _ c₉ in
    let (offset_h, offset_h_is, d₂) = bind_ok (add estimate.anchor.offset_max_ticks high_d) _ d₁ in
    let (low, low_is, d₃) = bind_ok (add (pos host) offset_l) _ d₂ in
    let (high, high_is, d₄) = bind_ok (add (pos host) offset_h) _ d₃ in
    let (width, width_is, d₅) = bind_ok (sub high low) _ d₄ in
    let (middle, middle_is, d₆) = bind_ok (add low (quotient width (pos 2))) _ d₅ in
    assemble sync slew host estimate elapsed n low_p low_d high_p high_d offset_l offset_h low high
      width middle bound estimate_is elapsed_is n_is low_p_is low_d_is high_p_is high_d_is
      offset_l_is offset_h_is low_is high_is width_is middle_is (ok-injective d₆)
