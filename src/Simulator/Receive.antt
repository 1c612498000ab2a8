-- ===== src/Simulator/Receive.antt =====
-- crates/simulator/src/clock_transport.rs: what `receive_due` takes from the link.
use dryer.Base.{
  ℕ, suc, ◌≤◌, ◌<◌, ◌≡◌, ◌⊎◌, refl, ap, true, false, not, Option, none, some, List, [], ◌∷◌, ◌++◌,
  All, leb, if_either, if◌then◌else◌, arith,
}
use dryer.Protocol.{Tick}
use dryer.Simulator.{SimClockFrame, ScheduledResponse, SimClockTransport}
use dryer.Simulator.ClockTransport.{not_later, earliest, removed, shifted, receive_due}

-- `b` comes strictly after `a`, by its delivery time or, at the same time, by its number.
abbrev pub After : ScheduledResponse → ScheduledResponse → Type 0
After a b =
    (a.delivered_at < b.delivered_at)
    ⊎ ((a.delivered_at ≡ b.delivered_at) × (a.insertion_order < b.insertion_order))

-- `b` does not come before `a`.
abbrev pub NotBefore : ScheduledResponse → ScheduledResponse → Type 0
NotBefore a b =
    (a.delivered_at < b.delivered_at)
    ⊎ ((a.delivered_at ≡ b.delivered_at) × (a.insertion_order ≤ b.insertion_order))

sooner_lem : (a b : ScheduledResponse) → not_later a b ≡ true → NotBefore a b
sooner_lem a b h = ground (arith, h)

later_lem : (a b : ScheduledResponse) → not_later a b ≡ false → After b a
later_lem a b h = ground (arith, h)

abbrev pub Due : Tick → ScheduledResponse → Type 0
Due host_now response = response.delivered_at ≤ host_now

-- The response is due, and it comes first among those that are due: all of them before it in the
-- queue come strictly after it, and all behind it not before it.
pub record First (host_now : Tick) (before : List ScheduledResponse) (response : ScheduledResponse)
    (after : List ScheduledResponse) : Type 0 where
  pub due : Due host_now response
  pub over_before : All (λ other. Due host_now other → After response other) before
  pub over_after : All (λ other. Due host_now other → NotBefore response other) after

abbrev Chosen : Tick → List ScheduledResponse → Option (ℕ × ScheduledResponse) → Type 0
Chosen host_now pending none = All (λ other. host_now < other.delivered_at) pending
Chosen host_now pending (some (index, response)) =
    (before : List ScheduledResponse) × (after : List ScheduledResponse) × (pending
      ≡ before ++ (response ∷ after))
    × (removed index pending ≡ before ++ after)
    × First host_now before response after

not_later_trans : (a b c : ScheduledResponse) → NotBefore a b → NotBefore b c → NotBefore a c
not_later_trans a b c h k = ground (arith, h, k)

NotBefore-After : (a b : ScheduledResponse) → After a b → NotBefore a b
NotBefore-After a b h = ground (arith, h)

All_map :
    {P Q : ScheduledResponse → Type 0}
    → ((r : ScheduledResponse) → P r → Q r)
    → (xs : List ScheduledResponse) → All P xs
    → All Q xs
All_map f [] h = tt
All_map f (x ∷ xs) (p, h) = (f x p, All_map f xs h)

All_join :
    (P : ScheduledResponse → Type 0) (xs ys : List ScheduledResponse)
    → All P xs
    → All P ys
    → All P (xs ++ ys)
All_join P [] ys h k = k
All_join P (x ∷ xs) ys (p, h) k = (p, All_join P xs ys h k)

skipped_lem :
    (host_now : Tick) (response : ScheduledResponse) (rest : List ScheduledResponse)
    (later : Option (ℕ × ScheduledResponse))
    → host_now < response.delivered_at
    → Chosen host_now rest later
    → Chosen host_now (response ∷ rest) (shifted later)
skipped_lem host_now response rest none early chosen = (early, chosen)
skipped_lem host_now response rest (some (index, other)) early (before, after, split, left, first) =
    (
      response ∷ before,
      after,
      ap (◌∷◌ response) split,
      ap (◌∷◌ response) left,
      record {
        due = first.due;
        over_before = ((λ due. absurd (omega (arith, due, early))), first.over_before);
        over_after = first.over_after;
      },
    )

earlier_lem :
    (host_now : Tick) (response : ScheduledResponse) (rest : List ScheduledResponse)
    (later : Option (ℕ × ScheduledResponse))
    → Due host_now response
    → Chosen host_now rest later
    → Chosen host_now (response ∷ rest) (elim later [
      | none ↦ some (0, response)
      | some (index, other) ↦
          if not_later response other then some (0, response) else some (suc index, other)
    ])
earlier_lem host_now response rest none due chosen = (
  [],
  rest,
  refl,
  refl,
  record {
    due = due;
    over_before = tt;
    over_after = All_map (λ r early now. absurd (omega (arith, early, now))) rest chosen;
  },
)
earlier_lem host_now response rest (some (index, other)) due (before, after, split, left, first) =
    if_either (Chosen host_now (response ∷ rest)) (not_later response other)
      (λ test.
        let sooner = sooner_lem response other test in
        let behind =
          All_join (λ r. Due host_now r → NotBefore response r) before (other ∷ after)
            (All_map
              (λ r later now.
                not_later_trans response other r sooner (NotBefore-After other r (later now)))
              before first.over_before)
            (
              (λ now. sooner),
              All_map (λ r later now. not_later_trans response other r sooner (later now)) after
                  first.over_after,
            ) in
        (
          [],
          rest,
          refl,
          refl,
          record { due = due; over_before = tt; over_after = rw split behind },
        ))
      (λ later. (
        response ∷ before,
        after,
        ap (◌∷◌ response) split,
        ap (◌∷◌ response) left,
        record {
          due = first.due;
          over_before = ((λ now. later_lem response other later), first.over_before);
          over_after = first.over_after;
        },
      ))

earliest-Chosen :
    (host_now : Tick) (pending : List ScheduledResponse)
    → Chosen host_now pending (earliest host_now pending)
unfolding earliest
earliest-Chosen host_now [] = tt
earliest-Chosen host_now (response ∷ rest) =
    let chosen = earliest-Chosen host_now rest in
    if_either (Chosen host_now (response ∷ rest)) (not (leb response.delivered_at host_now))
      (λ early.
        skipped_lem host_now response rest (earliest host_now rest) (ground (arith, early)) chosen)
      (λ due.
        earlier_lem host_now response rest (earliest host_now rest) (ground (arith, due)) chosen)

abbrev pub Received : Tick → SimClockTransport → Option SimClockFrame × SimClockTransport → Type 0
Received host_now transport (none, transport') =
    (transport' ≡ transport) × All (λ other. host_now < other.delivered_at) transport.pending
Received host_now transport (some frame, transport') =
    (before : List ScheduledResponse) × (response : ScheduledResponse) × (after : List
      ScheduledResponse)
    × (transport.pending ≡ before ++ (response ∷ after))
    × (transport' ≡ record transport { pending = before ++ after })
    × (frame ≡ record { delivered_at = response.delivered_at; bytes = response.bytes })
    × First host_now before response after

-- `receive_due` hands out the first of the responses that are due, by delivery time and then by number,
-- and takes it alone out of the queue, whose order it keeps. It hands out none only where none is due,
-- and then changes nothing.
pub receive_due-Received :
    (host_now : Tick) (transport : SimClockTransport)
    → Received host_now transport (receive_due host_now transport)
unfolding receive_due
receive_due-Received host_now transport =
    by_choice (earliest host_now transport.pending) (earliest-Chosen host_now transport.pending)
  where
    by_choice :
        (choice : Option (ℕ × ScheduledResponse))
        → Chosen host_now transport.pending choice
        → Received host_now transport (elim choice [
          | none ↦ (none, transport)
          | some (index, response) ↦ (
            some (record { delivered_at = response.delivered_at; bytes = response.bytes }),
            record transport { pending = removed index transport.pending },
          )
        ])
    by_choice none chosen = (refl, chosen)
    by_choice (some (index, response)) (before, after, split, left, first) = (
      before,
      response,
      after,
      split,
      ap (λ rest. record transport { pending = rest }) left,
      refl,
      first,
    )
