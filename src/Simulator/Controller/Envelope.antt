-- ===== src/Simulator/Controller/Envelope.antt =====
-- crates/simulator/src/lib.rs: the safety envelope, which heaters enter when a heartbeat is lost.
use dryer.Base.{
  ℕ, ◌-◌, ◌<◌, ◌≡◌, refl, sym, ◌∙◌, Bool, true, false, not, ◌&&◌, some, List, [], ◌∷◌, All, map,
  lt→ltb, if_either,
}
use dryer.Base.Int.{ℤ, pos, ltb_ℤ}
use dryer.Protocol.{Tick}
use dryer.Simulator.CommandLink.{SimTransport, deliver_due}
use dryer.Simulator.Controller.{SimController, HeaterState, Float}
use dryer.Simulator.Controller.Accept.{accept_all}
use dryer.Simulator.Controller.Rounds.{sample_temps_same}
use dryer.Simulator.Controller.Start.{start_due}
use dryer.Simulator.Controller.Step.{
  advance, overdue, checked_heater, check_heartbeats, warmed, warm, drive_axes, tick,
}

pub All-map :
    {A : Type 0} (P Q : A → Type 0) (f : A → A)
    → ((a : A) → P a → Q (f a))
    → (xs : List A) → All P xs
    → All Q (map f xs)
All-map P Q f h [] all = tt
All-map P Q f h (x ∷ xs) (p, all) = (h x p, All-map P Q f h xs all)

pub trivially : {A : Type 0} (xs : List A) → All (λ a. Unit {0}) xs
trivially [] = tt
trivially (x ∷ xs) = (tt, trivially xs)

module _ {F : Type 0} where
  -- The heartbeat that this heater waits for is older than its timeout.
  abbrev pub Lost : Tick → Tick → HeaterState F → Type 0
  Lost now last_heartbeat h =
      (timeout : ℕ) × (h.cfg.heartbeat_timeout ≡ some timeout) × (timeout < now - last_heartbeat)

  abbrev pub IsHot : HeaterState F → Type 0
  IsHot h = ltb_ℤ (pos 0) h.target_milli_c ≡ true

  -- A heater whose heartbeat is lost is not heated towards a target above 0.
  abbrev pub Guarded : Tick → Tick → HeaterState F → Type 0
  Guarded now last_heartbeat h =
      Lost now last_heartbeat h → h.duty_on ≡ true → ltb_ℤ (pos 0) h.target_milli_c ≡ false

  -- What the check leaves: forced into its safe state, or with no such target.
  Checked : Tick → Tick → HeaterState F → Type 0
  Checked now last_heartbeat h =
      Lost now last_heartbeat h → h.forced_safe ≡ false → ltb_ℤ (pos 0) h.target_milli_c ≡ false

  lost_lem :
      (now last_heartbeat : Tick) (h : HeaterState F)
      → Lost now last_heartbeat h
      → overdue now last_heartbeat h ≡ not h.forced_safe && ltb_ℤ (pos 0) h.target_milli_c
  lost_lem now last_heartbeat h (timeout, is, late) =
      rw (is, lt→ltb timeout (now - last_heartbeat) late)
        (and_true (not h.forced_safe && ltb_ℤ (pos 0) h.target_milli_c))
    where
      and_true : (b : Bool) → b && true ≡ b
      and_true true = refl
      and_true false = refl

  checked_heater-Checked :
      (now last_heartbeat : Tick) (h : HeaterState F)
      → Checked now last_heartbeat (checked_heater now last_heartbeat h)
  unfolding Checked
  checked_heater-Checked now last_heartbeat h =
      if_either
        (λ (h' : HeaterState F).
          Lost now last_heartbeat h'
          → h'.forced_safe ≡ false
          → ltb_ℤ (pos 0) h'.target_milli_c ≡ false)
        (overdue now last_heartbeat h) (λ _ lost off. refl)
        (λ fresh lost free. cold free (sym (lost_lem now last_heartbeat h lost) ∙ fresh))
    where
      cold :
          {forced_now hot : Bool} → forced_now ≡ false → not forced_now && hot ≡ false → hot ≡ false
      cold {forced_now = false} free h' = h'
      cold {forced_now = true} free h' = cc

  module _ (float : Float F) where
    warmed-Guarded :
        (now last_heartbeat : Tick) (ambient : ℤ) (h : HeaterState F)
        → Checked now last_heartbeat h
        → Guarded now last_heartbeat (warmed float ambient h)
    unfolding Checked
    warmed-Guarded now last_heartbeat ambient h checked lost on = checked lost (unforced _ on)
      where
        unforced : {safe : Bool} (cold : Bool) → not safe && cold ≡ true → safe ≡ false
        unforced {safe = false} cold h' = refl
        unforced {safe = true} cold h' = cc

    -- After every round of `run`, whatever was delivered and whatever the state before: a heater that
    -- has waited longer than its timeout for a heartbeat is not heated towards a target above 0.
    pub tick-Guarded :
        (c : SimController F) (t : SimTransport)
        → let after = (tick float c t).0 in
          All (Guarded after.now after.last_heartbeat) after.heaters
    unfolding tick check_heartbeats warm drive_axes Checked
    tick-Guarded c t =
        let begun = advance c in
        let ready = start_due (accept_all begun ((deliver_due t begun.now).0)) in
        let last = drive_axes (warm float (check_heartbeats ready)) in
        let (now_same, _, _, heaters_same, _, last_same, _) = sample_temps_same float last in
        let checked =
          All-map (λ h. Unit {0}) (Checked ready.now ready.last_heartbeat)
            (checked_heater ready.now ready.last_heartbeat)
            (λ h _. checked_heater-Checked ready.now ready.last_heartbeat h) ready.heaters
            (trivially ready.heaters) in
        let guarded =
          All-map (Checked ready.now ready.last_heartbeat) (Guarded ready.now ready.last_heartbeat)
            (warmed float ready.ambient_milli_c)
            (warmed-Guarded ready.now ready.last_heartbeat ready.ambient_milli_c) _ checked in
        rw (now_same, heaters_same, last_same) guarded
