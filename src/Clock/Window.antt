-- ===== src/Clock/Window.antt =====
-- crates/clock-sync/src/lib.rs: sessions of accepted and refused exchanges, and the controller
-- windows that they support.
use dryer.Base.{
  ℕ, ◌+◌, ◌-◌, ◌*◌, ◌≤◌, ◌≡◌, ap, refl, false, inl, inr, Option, none, some, ok, leb, Result-cases,
  arith,
}
use dryer.Base.Int.{pos, ltb_ℤ, ◌≤ℤ◌}
use dryer.Base.Outcome.{bind_ok, then_ok, ok-injective, refuse_if}
use dryer.Clock.{
  ClockSync, ClockEstimate, ClockSample, OffsetObservation, ControllerWindow,
  insufficient_separation,
}
use dryer.Clock.Arith.{to_u64}
use dryer.Clock.Covers.{Exchanged, Covers, odd_slack, ℕ-split, observe_bounded-Covers}
use dryer.Clock.Division.{to_u64_ok}
use dryer.Clock.Observed.{observe_bounded_ok}
use dryer.Clock.Projected.{project_ok}
use dryer.Clock.Sync.{
  new, push, evaluate, commit, check_order, next_estimate, estimate_drift, observe_bounded, project,
  controller_window,
}
use dryer.Clock.TrueClock.{fine, reading, Slews, later_at_most, later_at_least}

-- The sessions with one controller: a new synchronizer, then exchanges with the controller's
-- clock, each accepted or refused.
pub data Session (clock : ℕ → ℕ) (slew : ℕ) : ClockSync → Type 0 where
  started : {sync : ClockSync} → new (pos slew) ≡ ok sync → Session clock slew sync
  pushed :
      {sync : ClockSync}
      → Session clock slew sync
      → (sample : ClockSample) → Exchanged clock sample
      → Session clock slew ((push sync sample).1)

-- The state of such a session keeps its bound, and an estimate's anchor covers the clock.
pub record Tracks (clock : ℕ → ℕ) (slew : ℕ) (sync : ClockSync) : Type 0 where
  pub bound : sync.max_slew_ppb ≡ pos slew
  pub anchored :
      (e : ClockEstimate)
      → sync.estimate ≡ some e
      → Covers clock (odd_slack slew e.anchor.round_trip_ticks) e.anchor
        × (e.anchor.offset_min_ticks ≤ℤ e.anchor.offset_max_ticks)

new-Tracks :
    (clock : ℕ → ℕ) (slew : ℕ) {sync : ClockSync}
    → new (pos slew) ≡ ok sync
    → Tracks clock slew sync
unfolding new
new-Tracks clock slew {sync} e =
    let nonneg : ltb_ℤ (pos slew) (pos 0) ≡ false = ground arith in
    let built = ok-injective (rw nonneg at e) in
    rw (← built) (record { bound = refl; anchored = λ e h. cc })

-- A next estimate is anchored at the observation.
next_estimate_anchor :
    (previous : Option OffsetObservation) (o : OffsetObservation) (at : ℕ)
    {next : Option ClockEstimate}
    → next_estimate previous o at ≡ ok next
    → (e : ClockEstimate) → next ≡ some e
    → e.anchor ≡ o
unfolding next_estimate
next_estimate_anchor none o at h e is = cc
next_estimate_anchor (some p) o at h e is =
    let (_, c₁) =
      then_ok (refuse_if (leb o.reference_host p.reference_host) insufficient_separation) _ h in
    let (drift, _, c₂) = bind_ok (estimate_drift p o) _ c₁ in let built = ok-injective c₂ in cc

evaluate_ok :
    (sync : ClockSync) (sample : ClockSample) {o : OffsetObservation} {next : Option ClockEstimate}
    → evaluate sync sample ≡ ok (o, next)
    → (observe_bounded sample sync.max_slew_ppb ≡ ok o)
      × (next_estimate sync.previous o sample.host_receive ≡ ok next)
unfolding evaluate
evaluate_ok sync sample {o} {next} h =
    let (o', o_is, c₁) = bind_ok (observe_bounded sample sync.max_slew_ppb) _ h in
    let (_, c₂) = then_ok (check_order sync.last_raw sample) _ c₁ in
    let (next', next_is, c₃) = bind_ok (next_estimate sync.previous o' sample.host_receive) _ c₂ in
    finish o' next' o_is next_is (ok-injective c₃)
  where
    finish :
        (o' : OffsetObservation) (next' : Option ClockEstimate)
        → observe_bounded sample sync.max_slew_ppb ≡ ok o'
        → next_estimate sync.previous o' sample.host_receive ≡ ok next'
        → ◌≡◌ {A = OffsetObservation × Option ClockEstimate} (o', next') (o, next)
        → (observe_bounded sample sync.max_slew_ppb ≡ ok o)
          × (next_estimate sync.previous o sample.host_receive ≡ ok next)
    finish o' next' o_is next_is pair =
        let same_o = ap (λ (p : OffsetObservation × Option ClockEstimate). p.0) pair in
        let same_next = ap (λ (p : OffsetObservation × Option ClockEstimate). p.1) pair in
        ((rw same_o at o_is), (rw (same_o, same_next) at next_is))

-- What the state promises of its estimate's anchor.
abbrev Anchored : (ℕ → ℕ) → ℕ → OffsetObservation → Type 0
Anchored clock slew o =
    Covers clock (odd_slack slew o.round_trip_ticks) o × (o.offset_min_ticks ≤ℤ o.offset_max_ticks)

module _ (clock : ℕ → ℕ) (slew : ℕ) (s : Slews slew clock) (mild : slew ≤ 1_000_000_000) where
  accepted_Anchored :
      (sample : ClockSample) (o : OffsetObservation)
      → Exchanged clock sample
      → observe_bounded sample (pos slew) ≡ ok o
      → Anchored clock slew o
  accepted_Anchored sample o x h = (
    observe_bounded-Covers slew clock s mild sample o x h,
    (observe_bounded_ok sample slew h).ordered,
  )

  commit-Tracks :
      (sync : ClockSync) (sample : ClockSample) (o : OffsetObservation)
      (next : Option ClockEstimate)
      → Tracks clock slew sync
      → Exchanged clock sample
      → evaluate sync sample ≡ ok (o, next)
      → Tracks clock slew (commit sync sample o next)
  commit-Tracks sync sample o none tracks x h = record {
    bound = tracks.bound;
    anchored = tracks.anchored;
  }
  commit-Tracks sync sample o (some made) tracks x h =
      let (o_is, next_is) = evaluate_ok sync sample h in
      record {
        bound = tracks.bound;
        anchored = λ e is.
            rw (next_estimate_anchor sync.previous o sample.host_receive next_is e is)
              (accepted_Anchored sample o x (rw tracks.bound at o_is));
      }

  push-Tracks :
      (sync : ClockSync) (sample : ClockSample)
      → Tracks clock slew sync
      → Exchanged clock sample
      → Tracks clock slew ((push sync sample).1)
  unfolding push
  push-Tracks sync sample tracks x = elim (Result-cases (evaluate sync sample)) [
    | inr (e, refused) ↦ rw (push, refused) tracks
    | inl ((o, next), accepted) ↦
        rw (push, accepted) (commit-Tracks sync sample o next tracks x accepted)
  ]

  -- Every session of exchanges keeps the invariant.
  pub Session-Tracks : {sync : ClockSync} → Session clock slew sync → Tracks clock slew sync
  Session-Tracks (started is) = new-Tracks clock slew is
  Session-Tracks (pushed {sync} before sample x) = push-Tracks sync sample (Session-Tracks before) x

  -- The two ends of a window on either side of the anchor.
  module _ (r host d : ℕ) (apart : d ≡ (host - r) + (r - host)) where
    after : r ≤ host → slew * fine host ≡ slew * fine r + 1_000_000_000 * (slew * d)
    after h = omega (arith, ap (λ (t : ℕ). slew * t) ends)
      where
        ends : fine host ≡ fine r + 1_000_000_000 * d
        ends = omega arith

    before_anchor : host ≤ r → slew * fine r ≡ slew * fine host + 1_000_000_000 * (slew * d)
    before_anchor h = omega (arith, ap (λ (t : ℕ). slew * t) ends)
      where
        ends : fine r ≡ fine host + 1_000_000_000 * d
        ends = omega arith

    drifts_at_most :
        clock (fine r) + 1_000_000_000 * fine host
        ≤ clock (fine host) + 1_000_000_000 * fine r + 1_000_000_000 * (slew * d)
    drifts_at_most = elim (ℕ-split r host) [
      | inl up ↦ omega (arith, later_at_least s (fine r) (fine host) (omega arith), after up)
      | inr down ↦
          omega (arith, later_at_most s (fine host) (fine r) (omega arith), before_anchor down)
    ]

    drifts_at_least :
        clock (fine host) + 1_000_000_000 * fine r
        ≤ clock (fine r) + 1_000_000_000 * fine host + 1_000_000_000 * (slew * d)
    drifts_at_least = elim (ℕ-split r host) [
      | inl up ↦ omega (arith, later_at_most s (fine r) (fine host) (omega arith), after up)
      | inr down ↦
          omega (arith, later_at_least s (fine host) (fine r) (omega arith), before_anchor down)
    ]

  -- Any session of real exchanges with a clock whose slew is within the bound, and a bound of at
  -- most the clock's own rate: an accepted window
  -- holds the clock's reading at the host tick it was asked for, up to half a tick's slew below
  -- where the anchor's exchange spans an odd number of ticks.
  pub controller_window-contains :
      {sync : ClockSync} (host : ℕ) (window : ControllerWindow)
      → Session clock slew sync
      → controller_window sync host ≡ ok window
      → (e : ClockEstimate) × (sync.estimate ≡ some e)
        × (reading window.earliest ≤ clock (fine host) + odd_slack slew e.anchor.round_trip_ticks)
        × (clock (fine host) ≤ reading window.latest)
  unfolding controller_window
  controller_window-contains {sync} host window session chain =
      let tracks = Session-Tracks session in
      let ((low, middle, high), p_is, c₁) = bind_ok (project sync host) _ chain in
      let (earliest, earliest_is, c₂) = bind_ok (to_u64 low) _ c₁ in
      let (central, central_is, c₃) = bind_ok (to_u64 middle) _ c₂ in
      let (latest, latest_is, c₄) = bind_ok (to_u64 high) _ c₃ in
      let p = project_ok sync slew host tracks.bound p_is in
      let (covers, _) = tracks.anchored p.estimate p.available in
      let low_is = to_u64_ok low earliest_is in
      let high_is = to_u64_ok high latest_is in
      rw (← ok-injective c₄) (
        p.estimate,
        p.available,
        omega (
          arith,
          rw low_is at p.lowest,
          covers.not_below,
          drifts_at_most p.estimate.anchor.reference_host host p.distance p.apart,
        ),
        omega (
          arith,
          rw high_is at p.highest,
          covers.not_above,
          drifts_at_least p.estimate.anchor.reference_host host p.distance p.apart,
        ),
      )
