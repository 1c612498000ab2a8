-- ===== src/Clock/Division.antt =====
-- Laws of the checked arithmetic of crates/clock-sync/src/lib.rs: what a result that is not an
-- overflow says about its arguments.
use native.Mathlib.Nat.{div-add-mod, mod-lt}
use dryer.Base.{ap, ℕ, suc, ◌+◌, ◌*◌, ◌/◌, ◌%◌, ◌≤◌, ◌<◌, ◌≡◌, inl, inr, ok, Bool-cases, arith}
use dryer.Base.Int.{
  ℤ, pos, negsuc, pos_part, neg_part, ◌+ℤ◌, ◌-ℤ◌, ◌*ℤ◌, checked, checked_div, checked_rem, quotient,
  remainder, +ℤ_parts, -ℤ_parts, ltb_ℤ_lt, ltb_ℤ_ge, one_sided, ltb_ℤ,
}
use dryer.Base.Outcome.{bind_ok}
use dryer.Clock.Arith.{or_overflow, add, sub, mul, neg, div_floor, div_ceil, to_u64}

checked_ok : (a : ℤ) {c : ℤ} → or_overflow (checked a) ≡ ok c → c ≡ a
checked_ok a h = ground arith

pub add_ok : (a b : ℤ) {c : ℤ} → add a b ≡ ok c → c ≡ a +ℤ b
unfolding add
add_ok a b h = checked_ok (a +ℤ b) h

pub sub_ok : (a b : ℤ) {c : ℤ} → sub a b ≡ ok c → c ≡ a -ℤ b
unfolding sub
sub_ok a b h = checked_ok (a -ℤ b) h

pub mul_ok : (a b : ℤ) {c : ℤ} → mul a b ≡ ok c → c ≡ a *ℤ b
unfolding mul
mul_ok a b h = checked_ok (a *ℤ b) h

pub neg_ok : (a : ℤ) {c : ℤ} → neg a ≡ ok c → c ≡ pos 0 -ℤ a
unfolding neg
neg_ok a h = checked_ok (pos 0 -ℤ a) h

-- The same in parts, which `omega` reads.
pub add_parts :
    (a b : ℤ) {c : ℤ}
    → add a b ≡ ok c
    → pos_part c + neg_part a + neg_part b ≡ neg_part c + pos_part a + pos_part b
add_parts a b h = rw (add_ok a b h) (+ℤ_parts a b)

pub sub_parts :
    (a b : ℤ) {c : ℤ}
    → sub a b ≡ ok c
    → pos_part c + neg_part a + pos_part b ≡ neg_part c + pos_part a + neg_part b
sub_parts a b h = rw (sub_ok a b h) (-ℤ_parts a b)

pub to_u64_ok : (a : ℤ) {n : ℕ} → to_u64 a ≡ ok n → a ≡ pos n
unfolding to_u64
to_u64_ok (pos m) h = ground arith
to_u64_ok (negsuc m) h = cc

div_pos : (n d : ℕ) → 0 < d → (d * (n / d) + n % d ≡ n) × (n % d < d)
div_pos n d h = (div-add-mod n d, mod-lt n h)

checked_div_ok :
    (n : ℤ) (d : ℕ) {q : ℤ} → or_overflow (checked_div n (pos d)) ≡ ok q → q ≡ quotient n (pos d)
unfolding checked_div
checked_div_ok n d h = ground arith

checked_rem_ok :
    (n : ℤ) (d : ℕ) {r : ℤ} → or_overflow (checked_rem n (pos d)) ≡ ok r → r ≡ remainder n (pos d)
unfolding checked_rem
checked_rem_ok n d h = ground arith

-- A quotient and a remainder in the signs of the dividend.
record IsDivision (n : ℤ) (d : ℕ) (q r : ℤ) : Type 0 where
  whole : d * pos_part q + pos_part r + neg_part n ≡ pos_part n + d * neg_part q + neg_part r
  small_pos : pos_part r < d
  small_neg : neg_part r < d

quotient-remainder :
    (n : ℤ) (d : ℕ) → 0 < d → IsDivision n d (quotient n (pos d)) (remainder n (pos d))
unfolding quotient remainder
quotient-remainder (pos n) d h = ground (arith, div_pos n d h)
quotient-remainder (negsuc n) d h = ground (arith, div_pos (suc n) d h)

-- The two steps with which the divisions begin.
IsDivision-ok :
    (n : ℤ) (d : ℕ) {t r : ℤ}
    → 0 < d
    → or_overflow (checked_div n (pos d)) ≡ ok t
    → or_overflow (checked_rem n (pos d)) ≡ ok r
    → IsDivision n d t r
IsDivision-ok n d h te re =
    rw (checked_div_ok n d te, checked_rem_ok n d re) (quotient-remainder n d h)

-- The product with the divisor of a quotient that is moved by one.
times_next :
    (d : ℕ) (q t : ℤ)
    → q ≡ t +ℤ pos 1
    → d * pos_part q + d * neg_part t ≡ d * neg_part q + d * pos_part t + d
times_next d q t e = omega (arith, ap (λ (x : ℕ). d * x) moved)
  where
    moved : pos_part q + neg_part t ≡ neg_part q + pos_part t + 1
    moved = rw e (omega (arith, +ℤ_parts t (pos 1)))

times_previous :
    (d : ℕ) (q t : ℤ)
    → q ≡ t -ℤ pos 1
    → d * pos_part q + d * neg_part t + d ≡ d * neg_part q + d * pos_part t
times_previous d q t e = omega (arith, ap (λ (x : ℕ). d * x) moved)
  where
    moved : pos_part q + neg_part t + 1 ≡ neg_part q + pos_part t
    moved = rw e (omega (arith, -ℤ_parts t (pos 1)))

-- The smallest multiple of the divisor that is not below the dividend.
pub div_ceil_bounds :
    (n : ℤ) (d : ℕ) {q : ℤ}
    → 0 < d
    → div_ceil n (pos d) ≡ ok q
    → (pos_part n + d * neg_part q ≤ d * pos_part q + neg_part n)
      × (d * pos_part q + neg_part n < pos_part n + d * neg_part q + d)
unfolding div_ceil
div_ceil_bounds n d {q} h e =
    let (t, te, rest) = bind_ok (or_overflow (checked_div n (pos d))) _ e in
    let (r, re, last) = bind_ok (or_overflow (checked_rem n (pos d))) _ rest in
    let division = IsDivision-ok n d h te re in
    elim (Bool-cases (ltb_ℤ (pos 0) r)) [
      | inl up ↦ omega (
        arith,
        division.whole,
        division.small_pos,
        ltb_ℤ_lt (pos 0) r up,
        one_sided r,
        times_next d q t (add_ok t (pos 1) (rw up at last)),
      )
      | inr exact ↦
          let q_is : t ≡ q = ground (arith, rw exact at last) in
          rw (← q_is) (
            omega
              (arith, division.whole, division.small_neg, ltb_ℤ_ge (pos 0) r exact, one_sided r))
    ]

-- The largest multiple of the divisor that is not above the dividend.
pub div_floor_bounds :
    (n : ℤ) (d : ℕ) {q : ℤ}
    → 0 < d
    → div_floor n (pos d) ≡ ok q
    → (d * pos_part q + neg_part n ≤ pos_part n + d * neg_part q)
      × (pos_part n + d * neg_part q < d * pos_part q + neg_part n + d)
unfolding div_floor
div_floor_bounds n d {q} h e =
    let (t, te, rest) = bind_ok (or_overflow (checked_div n (pos d))) _ e in
    let (r, re, last) = bind_ok (or_overflow (checked_rem n (pos d))) _ rest in
    let division = IsDivision-ok n d h te re in
    elim (Bool-cases (ltb_ℤ r (pos 0))) [
      | inl down ↦ omega (
        arith,
        division.whole,
        division.small_neg,
        ltb_ℤ_lt r (pos 0) down,
        one_sided r,
        times_previous d q t (sub_ok t (pos 1) (rw down at last)),
      )
      | inr exact ↦
          let q_is : t ≡ q = ground (arith, rw exact at last) in
          rw (← q_is) (
            omega
              (arith, division.whole, division.small_pos, ltb_ℤ_ge r (pos 0) exact, one_sided r))
    ]
