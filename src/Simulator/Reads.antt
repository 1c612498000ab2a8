-- ===== src/Simulator/Reads.antt =====
-- crates/simulator/src/clock_transport.rs: what `ControllerClock::at` reads.
use dryer.Base.{
  ℕ, ◌+◌, ◌-◌, ◌*◌, ◌/◌, ◌^◌, ◌≤◌, ◌<◌, ◌≡◌, sym, ap, ◌∙◌, inl, inr, Option, none, some, ok, ok_or,
  some-injective, ltb, ltb→lt, ltb_false→le, Bool-cases, arith,
}
use dryer.Base.Int.{ℤ, pos, ◌+ℤ◌, ◌*ℤ◌, checked, quotient, in_i128}
use dryer.Base.Outcome.{bind_ok, ok-injective}
use dryer.Base.Words.{checked_sub_u64, checked_add_u64}
use dryer.Clock.Covers.{mul_mono}
use dryer.Protocol.{Tick}
use dryer.Simulator.{ControllerClock, arithmetic_overflow}
use dryer.Simulator.Clocks.{at, to_u64, parts_per_billion}

-- A clock that runs forward, with this many controller nanoticks to a host tick.
abbrev pub RunsAt : ControllerClock → ℕ → Type 0
RunsAt clock rate = (pos parts_per_billion +ℤ clock.rate_ppb ≡ pos rate) × (0 < rate)

pub ok_or_ok : {E A : Type 0} {a : A} (o : Option A) (e : E) → ok_or o e ≡ ok a → o ≡ some a
ok_or_ok none e h = cc
ok_or_ok (some b) e h = ap some (ok-injective h)

checked-some : (a b : ℤ) → checked a ≡ some b → a ≡ b
checked-some a b h = elim (Bool-cases (in_i128 a)) [
  | inl fits ↦ some-injective (rw fits at h)
  | inr over ↦ absurd (cc (rw over at h))
]

pos_times : (a b : ℕ) → pos a *ℤ pos b ≡ pos (a * b)
unfolding ◌*ℤ◌
pos_times a b = ground arith

sub_some : (a b d : ℕ) → checked_sub_u64 a b ≡ some d → (b ≤ a) × (d ≡ a - b)
sub_some a b d h = elim (Bool-cases (ltb a b)) [
  | inl below ↦ absurd (cc (rw below at h))
  | inr room ↦ (ltb_false→le a b room, sym (some-injective (rw room at h)))
]

pub add_some : (a b c : ℕ) → checked_add_u64 a b ≡ some c → (c ≡ a + b) × (c < 2 ^ 64)
add_some a b c h = elim (Bool-cases (ltb (a + b) (2 ^ 64))) [
  | inl fits ↦
      let is : a + b ≡ c = some-injective (rw fits at h) in
      (sym is, omega (arith, is, ltb→lt _ _ fits))
  | inr over ↦ absurd (cc (rw over at h))
]

to_u64-some : (n m : ℕ) → to_u64 (pos n) ≡ some m → m ≡ n
to_u64-some n m h = elim (Bool-cases (ltb n (2 ^ 64))) [
  | inl fits ↦ sym (some-injective (rw fits at h))
  | inr over ↦ absurd (cc (rw over at h))
]

-- A reading is exact up to rounding down: the epoch, and the elapsed host time at the clock's rate.
at_exact :
    (clock : ControllerClock) (rate : ℕ) (host_tick reading : Tick)
    → RunsAt clock rate
    → at clock host_tick ≡ ok reading
    → (clock.host_epoch ≤ host_tick)
      × (reading
          ≡ clock.controller_epoch + (host_tick - clock.host_epoch) * rate / parts_per_billion)
      × (reading < 2 ^ 64)
unfolding at quotient
at_exact clock rate host_tick reading (runs, _) h =
    let (elapsed, first, h₁) = bind_ok _ _ h in
    let (r, second, h₂) = bind_ok _ _ h₁ in
    let (product, third, h₃) = bind_ok _ _ h₂ in
    let (scaled, fourth, fifth) = bind_ok _ _ h₃ in
    let (since, elapsed_is) = sub_some host_tick clock.host_epoch elapsed (ok_or_ok _ _ first) in
    let r_is : r ≡ pos rate = sym (checked-some _ _ (ok_or_ok _ _ second)) ∙ runs in
    let product_is : product ≡ pos (elapsed * rate) =
      sym (checked-some _ _ (ok_or_ok _ _ third))
      ∙ ap (λ x. pos elapsed *ℤ x) r_is
      ∙ pos_times elapsed rate in
    let scaled_is : scaled ≡ elapsed * rate / parts_per_billion =
      to_u64-some (elapsed * rate / parts_per_billion) scaled (
        ap (λ x. to_u64 (quotient x (pos parts_per_billion))) (sym product_is)
        ∙ ok_or_ok (to_u64 (quotient product (pos parts_per_billion))) arithmetic_overflow
            fourth) in
    let (reading_is, fits) = add_some clock.controller_epoch scaled reading (ok_or_ok _ _ fifth) in
    (
      since,
      reading_is
          ∙ ap (λ x. clock.controller_epoch + x)
              (scaled_is ∙ ap (λ x. x * rate / parts_per_billion) elapsed_is),
      fits,
    )

-- A later host tick never reads as an earlier controller tick.
pub at-monotone :
    (clock : ControllerClock) (rate : ℕ) (earlier later before after : Tick)
    → RunsAt clock rate
    → earlier ≤ later
    → at clock earlier ≡ ok before
    → at clock later ≡ ok after
    → before ≤ after
at-monotone clock rate earlier later before after runs h first second =
    let (since, before_is, _) = at_exact clock rate earlier before runs first in
    let (_, after_is, _) = at_exact clock rate later after runs second in
    let grows =
      mul_mono rate (earlier - clock.host_epoch) (later - clock.host_epoch) (omega (arith, h)) in
    omega (arith, before_is, after_is, grows)

pub at-lt :
    (clock : ControllerClock) (rate : ℕ) (host_tick reading : Tick)
    → RunsAt clock rate
    → at clock host_tick ≡ ok reading
    → reading < 2 ^ 64
at-lt clock rate host_tick reading runs h =
    let (_, _, fits) = at_exact clock rate host_tick reading runs h in fits
