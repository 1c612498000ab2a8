-- ===== src/Simulator/Deliveries.antt =====
-- crates/simulator/src/clock_transport.rs: when what is sent over the link arrives.
use mathlib.Core.Path.{subst}
use dryer.Base.{
  ℕ, ◌+◌, ◌%◌, ◌≤◌, ◌==◌, ◌≡◌, Bool, true, false, inl, inr, List, [], ok, ok_or, All, length, ltb,
  Bool-cases, if◌then◌else◌, Option-cases, arith,
}
use dryer.Base.Outcome.{ok-injective}
use dryer.Base.Words.{checked_add_u64}
use dryer.Protocol.{Tick}
use dryer.Simulator.{ClockLinkConfig, SimClockTransport, time_overflow}
use dryer.Simulator.ClockTransport.{
  next_rand, roll, jitter_of, delivery_time, arrivals, delivered, deliveries,
}
use dryer.Simulator.Reads.{add_some, ok_or_ok}
use dryer.Simulator.Stateful.{pure, ◌>>=◌, Ends, Ends-map, >>=-Ends, pure-Ends}

-- The methods of the link draw random numbers and number responses: the rest of the transport stays.
abbrev pub Keeps : SimClockTransport → SimClockTransport → Type 0
Keeps before after =
    (after.cfg ≡ before.cfg) × (after.pending ≡ before.pending) × (after.link_up ≡ before.link_up)

-- Sent at this time, it arrives after the latency and at most the jitter and, as a duplicate, a tick
-- more.
abbrev pub Within : ClockLinkConfig → Tick → Tick → Type 0
Within link sent_at tick =
    (sent_at + link.latency_ticks ≤ tick)
    × (tick ≤ sent_at + link.latency_ticks + link.jitter_ticks + 1)

module _ (t : SimClockTransport) where
  next_rand-Ends :
      (s : SimClockTransport) → Keeps t s → Ends (Keeps t) (λ r. Unit {0}) (next_rand s)
  unfolding next_rand
  next_rand-Ends s kept = (kept, tt)

  roll-Ends :
      (per_mille : ℕ) (s : SimClockTransport)
      → Keeps t s
      → Ends (Keeps t) (λ r. Unit {0}) (roll per_mille s)
  unfolding roll
  roll-Ends per_mille s kept = elim (Bool-cases (ltb 0 per_mille)) [
    | inl some_loss ↦ rw some_loss (
        >>=-Ends (Keeps t) (λ r. Unit {0}) (λ r. Unit {0}) next_rand _ s (next_rand-Ends s kept)
          (λ r s' kept' _. (kept', tt)))
    | inr no_loss ↦ rw no_loss (kept, tt)
  ]

  jitter_of-Ends :
      (link : ClockLinkConfig) (s : SimClockTransport)
      → Keeps t s
      → Ends (Keeps t) (λ jitter. jitter ≤ link.jitter_ticks) (jitter_of link s)
  unfolding jitter_of
  jitter_of-Ends link s kept = elim (Bool-cases (link.jitter_ticks == 0)) [
    | inl no_jitter ↦ rw no_jitter (kept, omega arith)
    | inr some_jitter ↦ rw some_jitter (
        >>=-Ends (Keeps t) (λ c. ok_or (checked_add_u64 link.jitter_ticks 1) time_overflow ≡ ok c)
          (λ jitter. jitter ≤ link.jitter_ticks)
          (pure (ok_or (checked_add_u64 link.jitter_ticks 1) time_overflow))
          (λ choices. next_rand >>= λ r. pure (ok (r % choices))) s
          (pure-Ends (Keeps t) (ok_or (checked_add_u64 link.jitter_ticks 1) time_overflow) s kept)
          (λ choices s' kept' is.
            >>=-Ends (Keeps t) (λ r. Unit {0}) (λ jitter. jitter ≤ link.jitter_ticks) next_rand
              (λ r. pure (ok (r % choices))) s' (next_rand-Ends s' kept')
              (λ r s'' kept'' _.
                let (choices_is, _) = add_some link.jitter_ticks 1 choices (ok_or_ok _ _ is) in
                (kept'', omega (arith, choices_is)))))
  ]

  delivery_time_lem :
      (sent_at : Tick) (link : ClockLinkConfig) (jitter tick : ℕ)
      → delivery_time sent_at link jitter ≡ ok tick
      → tick ≡ sent_at + link.latency_ticks + jitter
  unfolding delivery_time
  delivery_time_lem sent_at link jitter tick h =
      elim (Option-cases (checked_add_u64 sent_at link.latency_ticks)) [
        | inl over ↦ absurd (cc (rw (delivery_time, over) at h))
        | inr (base, fits) ↦
            let (base_is, _) = add_some _ _ base fits in
            let (tick_is, _) =
              add_some base jitter tick (ok_or_ok _ _ (rw (delivery_time, fits) at h)) in
            omega (arith, base_is, tick_is)
      ]

  arrivals_lem :
      (link : ClockLinkConfig) (sent_at tick : Tick) (duplicate : Bool) (ticks : List Tick)
      → sent_at + link.latency_ticks ≤ tick
      → tick ≤ sent_at + link.latency_ticks + link.jitter_ticks
      → arrivals tick duplicate ≡ ok ticks
      → All (Within link sent_at) ticks × (length ticks ≤ 2)
  unfolding arrivals
  arrivals_lem link sent_at tick false ticks low high h =
      subst (λ xs. All (Within link sent_at) xs × (length xs ≤ 2)) (ok-injective h)
        (((low, omega (arith, high)), tt), omega arith)
  arrivals_lem link sent_at tick true ticks low high h =
      elim (Option-cases (checked_add_u64 tick 1)) [
        | inl over ↦ absurd (cc (rw (arrivals, over) at h))
        | inr (later, fits) ↦
            let (later_is, _) = add_some tick 1 later fits in
            subst (λ xs. All (Within link sent_at) xs × (length xs ≤ 2))
              (ok-injective (rw (arrivals, fits) at h))
              (
                (
                  (low, omega (arith, high)),
                  ((omega (arith, low, later_is), omega (arith, high, later_is)), tt),
                ),
                omega arith,
              )
      ]

  delivered-Ends :
      (sent_at : Tick) (link : ClockLinkConfig) (s : SimClockTransport)
      → Keeps t s
      → Ends
          (Keeps t)
          (λ ticks. All (Within link sent_at) ticks × (length ticks ≤ 2))
          (delivered sent_at link s)
  unfolding delivered
  delivered-Ends sent_at link s kept =
      >>=-Ends (Keeps t) (λ jitter. jitter ≤ link.jitter_ticks)
        (λ ticks. All (Within link sent_at) ticks × (length ticks ≤ 2)) (jitter_of link) _ s
        (jitter_of-Ends link s kept)
        (λ jitter s₁ kept₁ small.
          >>=-Ends (Keeps t) (λ tick. delivery_time sent_at link jitter ≡ ok tick)
            (λ ticks. All (Within link sent_at) ticks × (length ticks ≤ 2))
            (pure (delivery_time sent_at link jitter)) _ s₁
            (pure-Ends (Keeps t) (delivery_time sent_at link jitter) s₁ kept₁)
            (λ tick s₂ kept₂ is.
              let tick_is = delivery_time_lem sent_at link jitter tick is in
              >>=-Ends (Keeps t) (λ duplicate. Unit {0})
                (λ ticks. All (Within link sent_at) ticks × (length ticks ≤ 2))
                (roll link.dup_per_mille) _ s₂ (roll-Ends link.dup_per_mille s₂ kept₂)
                (λ duplicate s₃ kept₃ _.
                  Ends-map (Keeps t) (λ ticks. arrivals tick duplicate ≡ ok ticks)
                    (λ ticks. All (Within link sent_at) ticks × (length ticks ≤ 2))
                    (arrivals tick duplicate, s₃)
                    (λ ticks.
                      arrivals_lem link sent_at tick duplicate ticks (omega (arith, tick_is))
                        (omega (arith, tick_is, small)))
                    (pure-Ends (Keeps t) (arrivals tick duplicate) s₃ kept₃))))

  pub deliveries-Ends :
      (sent_at : Tick) (link : ClockLinkConfig) (s : SimClockTransport)
      → Keeps t s
      → Ends
          (Keeps t)
          (λ ticks. All (Within link sent_at) ticks × (length ticks ≤ 2))
          (deliveries sent_at link s)
  unfolding deliveries
  deliveries-Ends sent_at link s kept =
      >>=-Ends (Keeps t) (λ lost. Unit {0})
        (λ ticks. All (Within link sent_at) ticks × (length ticks ≤ 2)) (roll link.loss_per_mille) _
        s (roll-Ends link.loss_per_mille s kept) (λ lost s₁ kept₁ _. by_loss lost s₁ kept₁)
    where
      by_loss :
          (lost : Bool) (s₁ : SimClockTransport)
          → Keeps t s₁
          → Ends
              (Keeps t)
              (λ ticks. All (Within link sent_at) ticks × (length ticks ≤ 2))
              ((if lost then pure (ok []) else delivered sent_at link) s₁)
      by_loss true s₁ kept₁ = (kept₁, (tt, omega arith))
      by_loss false s₁ kept₁ = delivered-Ends sent_at link s₁ kept₁
