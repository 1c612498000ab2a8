-- ===== src/Clock/Push.antt =====
-- crates/clock-sync/src/lib.rs: `push` on every branch.
use dryer.Base.{
  ℕ, ◌≤◌, ◌<◌, ◌≡◌, ◌⊎◌, ◌||◌, refl, sym, ap, inl, inr, Option, none, some, ok, err, ltb, leb,
  Result-cases, Result, arith,
}
use dryer.Base.Outcome.{bind_ok, then_ok, ok-injective, refuse_if}
use dryer.Clock.{
  ClockSync, ClockEstimate, ClockSample, OffsetObservation, DriftEstimate, ClockSyncError, HostTick,
  insufficient_separation, host_regressed,
}
use dryer.Clock.Observed.{refuse_ok}
use dryer.Clock.Sync.{
  push, evaluate, check_order, next_estimate, estimate_drift, observe_bounded, or_else, commit,
}

-- None of the four timestamps is before its last value.
abbrev pub InOrder : Option ClockSample → ClockSample → Type 0
InOrder none sample = Unit {0}
InOrder (some last) sample =
    (last.host_send ≤ sample.host_send)
    × (last.host_receive ≤ sample.host_receive)
    × (last.controller_receive ≤ sample.controller_receive)
    × (last.controller_send ≤ sample.controller_send)

-- The session starts at the first observation's reference tick, for good.
abbrev pub Started : Option HostTick → OffsetObservation → HostTick → Type 0
Started none o start = start ≡ o.reference_host
Started (some earlier) o start = start ≡ earlier

-- The first observation leaves the estimate; a later one, at a later reference tick, makes it anew
-- from the drift since the one before.
abbrev pub Estimated :
    Option OffsetObservation
    → OffsetObservation
    → HostTick
    → Option ClockEstimate
    → Option ClockEstimate
    → Type 0
Estimated none o at old new = new ≡ old
Estimated (some p) o at old new =
    (drift : DriftEstimate) × (estimate_drift p o ≡ ok drift)
    × (p.reference_host < o.reference_host)
    × (new ≡ some (record { anchor = o; drift = drift; sampled_at = at }))

record Accepted (sync : ClockSync) (sample : ClockSample) (o : OffsetObservation)
    (next : Option ClockEstimate) : Type 0 where
  observed : observe_bounded sample sync.max_slew_ppb ≡ ok o
  in_order : InOrder sync.last_raw sample
  estimated :
      Estimated sync.previous o sample.host_receive sync.estimate (or_else next sync.estimate)

check_order-InOrder :
    (last : Option ClockSample) (sample : ClockSample)
    → check_order last sample ≡ ok tt
    → InOrder last sample
unfolding check_order
check_order-InOrder none sample h = tt
check_order-InOrder (some last) sample h =
    let (host, c₁) =
      then_ok
        (refuse_if
          (ltb sample.host_send last.host_send || ltb sample.host_receive last.host_receive)
          host_regressed)
        _ h in
    let host' = refuse_ok _ _ host in
    let controller' = refuse_ok _ _ c₁ in ground (arith, host', controller')

next_estimate-Estimated :
    (previous : Option OffsetObservation) (o : OffsetObservation) (at : ℕ)
    (old : Option ClockEstimate) {next : Option ClockEstimate}
    → next_estimate previous o at ≡ ok next
    → Estimated previous o at old (or_else next old)
unfolding next_estimate
next_estimate-Estimated none o at old h =
    ap (λ (n : Option ClockEstimate). or_else n old) (sym (ok-injective h))
next_estimate-Estimated (some p) o at old h =
    let (apart, c₁) =
      then_ok (refuse_if (leb o.reference_host p.reference_host) insufficient_separation) _ h in
    let late = refuse_ok _ _ apart in
    let (drift, drift_is, c₂) = bind_ok (estimate_drift p o) _ c₁ in
    (
      drift,
      drift_is,
      ground (arith, late),
      ap (λ (n : Option ClockEstimate). or_else n old) (sym (ok-injective c₂)),
    )

evaluate-Accepted :
    (sync : ClockSync) (sample : ClockSample) {o : OffsetObservation} {next : Option ClockEstimate}
    → evaluate sync sample ≡ ok (o, next)
    → Accepted sync sample o next
unfolding evaluate
evaluate-Accepted sync sample {o} {next} h =
    let (o', o_is, c₁) = bind_ok (observe_bounded sample sync.max_slew_ppb) _ h in
    let (ordered, c₂) = then_ok (check_order sync.last_raw sample) _ c₁ in
    let (next', next_is, c₃) = bind_ok (next_estimate sync.previous o' sample.host_receive) _ c₂ in
    finish o' next' ordered o_is next_is
      (ap (λ (p : OffsetObservation × Option ClockEstimate). p.0) (ok-injective c₃))
      (ap (λ (p : OffsetObservation × Option ClockEstimate). p.1) (ok-injective c₃))
  where
    finish :
        (o' : OffsetObservation) (next' : Option ClockEstimate)
        → check_order sync.last_raw sample ≡ ok tt
        → observe_bounded sample sync.max_slew_ppb ≡ ok o'
        → next_estimate sync.previous o' sample.host_receive ≡ ok next'
        → o' ≡ o
        → next' ≡ next
        → Accepted sync sample o next
    finish o' next' ordered o_is next_is same same' =
        rw (← same, ← same')
          (record {
            observed = o_is;
            in_order = check_order-InOrder sync.last_raw sample ordered;
            estimated =
                next_estimate-Estimated sync.previous o' sample.host_receive sync.estimate next_is;
          })

-- The answer and the state of an accepted exchange.
abbrev pub Taken :
    ClockSync → ClockSample → Result ClockSyncError (Option ClockEstimate) × ClockSync → Type 0
Taken sync sample pushed =
    (o : OffsetObservation) × (start : HostTick) × (estimate : Option ClockEstimate)
    × (observe_bounded sample sync.max_slew_ppb ≡ ok o)
    × InOrder sync.last_raw sample
    × Started sync.session_start o start
    × Estimated sync.previous o sample.host_receive sync.estimate estimate
    × (pushed ≡ (
      ok estimate,
      record sync {
        session_start = some start;
        previous = some o;
        last_raw = some sample;
        estimate = estimate;
      },
    ))

commit-Taken :
    (sync : ClockSync) (sample : ClockSample) (o : OffsetObservation) (next : Option ClockEstimate)
    (start : Option HostTick)
    → Accepted sync sample o next
    → Taken
        (record sync { session_start = start })
        sample
        (
          ok (or_else next sync.estimate),
          commit (record sync { session_start = start }) sample o next,
        )
commit-Taken sync sample o next none a = (
  o,
  o.reference_host,
  or_else next sync.estimate,
  a.observed,
  a.in_order,
  refl,
  a.estimated,
  refl,
)
commit-Taken sync sample o next (some start) a =
    (o, start, or_else next sync.estimate, a.observed, a.in_order, refl, a.estimated, refl)

-- A refused exchange changes nothing: the synchronizer answers the error and keeps its state. An
-- accepted one is a bounded observation, none of whose raw timestamps is before the last sample's.
-- The observation and the sample are kept, and the session's start is the first observation's
-- reference tick for good. The estimate, which is also the answer, is left as it was by an
-- observation with none before it. Otherwise the observation before is at an earlier reference
-- tick, and the estimate is made anew from the drift between the two. Nothing else changes.
pub push-cases :
    (sync : ClockSync) (sample : ClockSample)
    → ((e : ClockSyncError) × (push sync sample ≡ (err e, sync)))
      ⊎ Taken sync sample (push sync sample)
unfolding push
push-cases sync sample = elim (Result-cases (evaluate sync sample)) [
  | inr (e, refused) ↦ inl (e, rw (push, refused) refl)
  | inl ((o, next), taken) ↦ inr (
      rw (push, taken)
        (commit-Taken sync sample o next sync.session_start (evaluate-Accepted sync sample taken)))
]
