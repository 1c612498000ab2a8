-- ===== src/Simulator/Traces.antt =====
-- crates/simulator/src/lib.rs, `Trace`: the comparison of a trace with a recorded one. The events'
-- equality, derived in the source, is a parameter.
use dryer.Base.{
  ℕ, zero, suc, Bool, true, false, not, Option, none, some, List, [], ◌∷◌, length, min,
  if◌then◌else◌,
}
use dryer.Protocol.{Tick}
use dryer.Simulator.Controller.{
  Event, accepted, rejected, executed, temp_sample, endstop, safe_state, fault_latch, reset_event,
}

abbrev pub event_at : Event → Tick
event_at (accepted at what) = at
event_at (rejected at what reason) = at
event_at (executed at what) = at
event_at (temp_sample at heater milli_c) = at
event_at (endstop at axis) = at
event_at (safe_state at output state cause) = at
event_at (fault_latch at code) = at
event_at (reset_event at) = at

abbrev pub get : List Event → ℕ → Option Event
get [] index = none
get (event ∷ rest) zero = some event
get (event ∷ rest) (suc index) = get rest index

pub record TraceDivergence : Type 0 where
  pub event_index : ℕ
  pub first_divergent_tick : Option Tick
  pub expected : Option Event
  pub actual : Option Event

pub record ReplayReport : Type 0 where
  pub matched : Bool
  pub expected_events : ℕ
  pub actual_events : ℕ
  pub divergence : Option TraceDivergence

abbrev pub divergent_tick : Option Event → Option Event → Option Tick
divergent_tick (some actual) (some expected) = some (min (event_at actual) (event_at expected))
divergent_tick (some actual) none = some (event_at actual)
divergent_tick none (some expected) = some (event_at expected)
divergent_tick none none = none

abbrev pub divergence_at : List Event → List Event → ℕ → TraceDivergence
divergence_at actual expected event_index = record {
  event_index = event_index;
  first_divergent_tick = divergent_tick (get actual event_index) (get expected event_index);
  expected = get expected event_index;
  actual = get actual event_index;
}

module _ (same : Event → Event → Bool) where
  -- `(0..n).find(|&i| self.0.get(i) != other.0.get(i))`, where both lists go on together.
  unfoldable pub first_divergence : List Event → List Event → Option ℕ
  first_divergence [] [] = none
  first_divergence [] (event ∷ rest) = some 0
  first_divergence (event ∷ rest) [] = some 0
  first_divergence (event ∷ rest) (event' ∷ rest') =
      let later = first_divergence rest rest' in
      if not (same event event')
      then some 0
      else elim later [ none ↦ none | some index ↦ some (suc index) ]

  unfoldable pub replay_report : List Event → List Event → ReplayReport
  replay_report actual expected =
      let found = first_divergence actual expected in
      record {
        matched = elim found [ none ↦ true | some index ↦ false ];
        expected_events = length expected;
        actual_events = length actual;
        divergence = elim found [
          | none ↦ none
          | some index ↦ some (divergence_at actual expected index)
        ];
      }
