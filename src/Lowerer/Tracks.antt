-- ===== src/Lowerer/Tracks.antt =====
-- crates/gcode-lowerer/src/lib.rs: the positions that the lowerer keeps are where its commands take the
-- axes.
use mathlib.Core.Path.{subst}
use dryer.Base.{
  ℕ, ◌==◌, ◌≡◌, refl, sym, ap, ◌∙◌, Bool, true, false, ◌||◌, Option, none, some, List, [], ◌∷◌,
  ◌++◌, if_either, if◌then◌else◌, arith,
}
use dryer.Base.Int.{ℤ, pos, negsuc, ◌+ℤ◌, ◌-ℤ◌, IsI64, wrap64}
use dryer.Base.Names.{lookup, insert, same_bytes, same_bytes→≡, lookup-insert, lookup-insert_other}
use dryer.Lowerer.{GcodeLowerer, Numbers, to_lowercase}
use dryer.Lowerer.Lines.{
  value_of, position_at, home_axis, home_all, all_axes, move_axis, is_axis, homed_axes, find_param,
  lower_home, feed_after, lower_moves, heat, lower_g, lower_m, lower_tokens, lower_source,
}
use dryer.Lowerer.Text.{clean_line, parse_tokens}
use dryer.Protocol.{Str, Command}

-- Where each axis is, in 64 bits: a command moves it by its distance, or home.
abbrev pub At : Type 0
At = Str → ℤ

abbrev pub put_at : At → Str → ℤ → At
put_at at axis p name = if same_bytes axis name then p else at name

abbrev pub moved : At → Command → At
moved at Command.heartbeat = at
moved at (Command.set_heater_target heater target) = at
moved at (Command.home axis rate) = put_at at axis (pos 0)
moved at (Command.move axis distance rate) = put_at at axis (wrap64 (at axis +ℤ distance))

unfoldable pub moved_all : At → List Command → At
moved_all at [] = at
moved_all at (command ∷ rest) = moved_all (moved at command) rest

abbrev pub Tracks : GcodeLowerer → List Command × GcodeLowerer → Type 0
Tracks lowerer (commands, lowerer') =
    position_at lowerer'.positions ≡ moved_all (position_at lowerer.positions) commands

position_at-insert :
    (positions : List (Str × ℤ)) (axis : Str) (p : ℤ)
    → position_at (insert axis p positions) ≡ put_at (position_at positions) axis p
position_at-insert positions axis p = λ i name. by_name name (same_bytes axis name) refl i
  where
    by_name :
        (name : Str) (same : Bool)
        → same_bytes axis name ≡ same
        → position_at (insert axis p positions) name
          ≡ (if same then p else position_at positions name)
    by_name name true same = ap value_of (
        subst (λ n. lookup (insert axis p positions) n ≡ some p) (same_bytes→≡ axis name same)
          (lookup-insert axis p positions))
    by_name name false apart = ap value_of (lookup-insert_other axis name p positions apart)

moved_all-append :
    (at : At) (first later : List Command)
    → moved_all at (first ++ later) ≡ moved_all (moved_all at first) later
unfolding moved_all
moved_all-append at [] later = refl
moved_all-append at (command ∷ first) later = moved_all-append (moved at command) first later

Tracks-append :
    (lowerer : GcodeLowerer) (first later : List Command × GcodeLowerer)
    → Tracks lowerer first
    → Tracks (first.1) later
    → Tracks lowerer (first.0 ++ later.0, later.1)
Tracks-append lowerer first later h k =
    k
    ∙ ap (λ at. moved_all at (later.0)) h
    ∙ sym (moved_all-append (position_at lowerer.positions) (first.0) (later.0))

-- A difference taken and added again in 64 bits is exact.
wrap64_back :
    (target current : ℤ) → IsI64 target → wrap64 (current +ℤ wrap64 (target -ℤ current)) ≡ target
unfolding ◌+ℤ◌ ◌-ℤ◌
wrap64_back (pos a) (pos b) h = ground arith
wrap64_back (pos a) (negsuc b) h = ground arith
wrap64_back (negsuc a) (pos b) h = ground arith
wrap64_back (negsuc a) (negsuc b) h = ground arith

home_all-Tracks :
    (lowerer : GcodeLowerer) (axes : List Str) → Tracks lowerer (home_all lowerer axes)
unfolding home_all home_axis moved_all
home_all-Tracks lowerer [] = refl
home_all-Tracks lowerer (axis ∷ rest) =
    let homed = (home_axis lowerer axis).1 in
    Tracks-append lowerer (home_axis lowerer axis) (home_all homed rest)
      (position_at-insert lowerer.positions axis (pos 0)) (home_all-Tracks homed rest)

lower_home-Tracks :
    (lowerer : GcodeLowerer) (axes : List Str) → Tracks lowerer (lower_home lowerer axes)
lower_home-Tracks lowerer [] = home_all-Tracks lowerer all_axes
lower_home-Tracks lowerer (axis ∷ rest) = home_all-Tracks lowerer (axis ∷ rest)

move_axis-Tracks :
    (lowerer : GcodeLowerer) (axis : Str) (target : ℤ)
    → IsI64 target
    → Tracks lowerer (move_axis lowerer axis target)
unfolding move_axis moved_all
move_axis-Tracks lowerer axis target h = by_mode lowerer.absolute_positioning
  where
    by_mode :
        (absolute : Bool)
        → let current = position_at lowerer.positions axis in
          let delta = if absolute then wrap64 (target -ℤ current) else target in
          position_at
            (insert axis (if absolute then target else wrap64 (current +ℤ delta)) lowerer.positions)
          ≡ put_at (position_at lowerer.positions) axis (wrap64 (current +ℤ delta))
    by_mode true =
        position_at-insert lowerer.positions axis target
        ∙ ap (put_at (position_at lowerer.positions) axis)
            (sym (wrap64_back target (position_at lowerer.positions axis) h))
    by_mode false =
        position_at-insert lowerer.positions axis
          (wrap64 (position_at lowerer.positions axis +ℤ target))

module _ {F : Type 0} (numbers : Numbers F)
    (in_range : (val : F) → IsI64 (numbers.thousandths val)) where
  lower_moves-Tracks :
      (lowerer : GcodeLowerer) (params : List (ℕ × F))
      → Tracks lowerer (lower_moves numbers lowerer params)
  unfolding lower_moves moved_all
  lower_moves-Tracks lowerer [] = refl
  lower_moves-Tracks lowerer ((param, val) ∷ rest) =
      let axis = to_lowercase param in
      let first =
        if is_axis axis || (axis == b'e')
        then move_axis lowerer (axis ∷ []) (numbers.thousandths val)
        else ([], lowerer) in
      Tracks-append lowerer first (lower_moves numbers (first.1) rest)
        (if_either (Tracks lowerer) (is_axis axis || (axis == b'e'))
          (λ _. move_axis-Tracks lowerer (axis ∷ []) (numbers.thousandths val) (in_range val))
          (λ _. refl))
        (lower_moves-Tracks (first.1) rest)

  lower_g-Tracks :
      (lowerer : GcodeLowerer) (code : ℕ) (params : List (ℕ × F))
      → Tracks lowerer (lower_g numbers lowerer code params)
  unfolding lower_g moved_all
  lower_g-Tracks lowerer code params =
      if_either (Tracks lowerer) (code == 90) (λ _. refl)
        (λ _.
          if_either (Tracks lowerer) (code == 91) (λ _. refl)
            (λ _.
              if_either (Tracks lowerer) (code == 28)
                (λ _. lower_home-Tracks lowerer (homed_axes params))
                (λ _.
                  if_either (Tracks lowerer) ((code == 0) || (code == 1))
                    (λ _.
                      lower_moves-Tracks
                        (record lowerer {
                          current_feed_rate_um_s =
                              feed_after numbers lowerer.current_feed_rate_um_s params;
                        })
                        params)
                    (λ _. refl))))

  heat_still :
      (at : At) (heater : Str) (tokens : List (ℕ × F))
      → at ≡ moved_all at (heat numbers heater tokens)
  unfolding moved_all
  heat_still at heater tokens = by_param (find_param b'S' tokens)
    where
      by_param :
          (found : Option F)
          → at
            ≡ moved_all at (elim found [
              | none ↦ []
              | some val ↦ Command.set_heater_target heater (numbers.thousandths val) ∷ []
            ])
      by_param none = refl
      by_param (some val) = refl

  lower_m_still :
      (lowerer : GcodeLowerer) (at : At) (code : ℕ) (tokens : List (ℕ × F))
      → at ≡ moved_all at (lower_m numbers lowerer code tokens)
  unfolding lower_m moved_all
  lower_m_still lowerer at code tokens =
      if_either (λ commands. at ≡ moved_all at commands) ((code == 104) || (code == 109))
        (λ _. heat_still at lowerer.config.hotend_name tokens)
        (λ _.
          if_either (λ commands. at ≡ moved_all at commands) ((code == 140) || (code == 190))
            (λ _. heat_still at lowerer.config.bed_name tokens)
            (λ _.
              if_either (λ commands. at ≡ moved_all at commands) (code == 105) (λ _. refl)
                (λ _. refl)))

  lower_tokens-Tracks :
      (lowerer : GcodeLowerer) (tokens : List (ℕ × F))
      → Tracks lowerer (lower_tokens numbers lowerer tokens)
  unfolding lower_tokens moved_all
  lower_tokens-Tracks lowerer [] = refl
  lower_tokens-Tracks lowerer ((letter, num) ∷ params) =
      if_either (Tracks lowerer) (letter == b'G')
        (λ _. lower_g-Tracks lowerer (numbers.as_u64 num) params)
        (λ _.
          if_either (Tracks lowerer) (letter == b'M')
            (λ _.
              lower_m_still lowerer (position_at lowerer.positions) (numbers.as_u64 num)
                ((letter, num) ∷ params))
            (λ _. refl))

  -- For every text: the position that the lowerer keeps of each axis is the one to which its commands
  -- take that axis, from where it was, in 64 bits, in absolute and in relative mode. It asks of the
  -- numbers only that a coordinate converted to an i64 is one.
  pub lower_source-Tracks :
      (is_whitespace : ℕ → Bool) (lowerer : GcodeLowerer) (lines : List (List ℕ))
      → Tracks lowerer (lower_source numbers is_whitespace lowerer lines)
  unfolding lower_source moved_all
  lower_source-Tracks is_whitespace lowerer [] = refl
  lower_source-Tracks is_whitespace lowerer (raw_line ∷ rest) =
      let tokens = parse_tokens is_whitespace numbers (clean_line is_whitespace raw_line) in
      let first = lower_tokens numbers lowerer tokens in
      Tracks-append lowerer first (lower_source numbers is_whitespace (first.1) rest)
        (lower_tokens-Tracks lowerer tokens) (lower_source-Tracks is_whitespace (first.1) rest)
