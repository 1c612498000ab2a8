-- ===== src/Lowerer/Lines.antt =====
-- crates/gcode-lowerer/src/lib.rs, `lower_source`: the lines are lowered one by one. The source gives
-- no error: its result is always `Ok`.
use dryer.Base.{
  ℕ, ◌==◌, Bool, true, false, ◌||◌, Option, none, some, List, [], ◌∷◌, ◌++◌, if◌then◌else◌,
}
use dryer.Base.Int.{ℤ, pos, ◌+ℤ◌, ◌-ℤ◌, wrap64}
use dryer.Base.Names.{lookup, insert}
use dryer.Lowerer.{GcodeLowerer, Numbers, to_lowercase}
use dryer.Lowerer.Text.{clean_line, parse_tokens}
use dryer.Protocol.{Str, Command}

abbrev pub is_axis : ℕ → Bool
is_axis c = (c == b'x') || (c == b'y') || (c == b'z')

-- `unwrap_or(0)`
abbrev pub value_of : Option ℤ → ℤ
value_of none = pos 0
value_of (some p) = p

abbrev pub position_at : List (Str × ℤ) → Str → ℤ
position_at positions axis = value_of (lookup positions axis)

unfoldable pub home_axis : GcodeLowerer → Str → List Command × GcodeLowerer
home_axis lowerer axis = (
  Command.home axis lowerer.current_feed_rate_um_s ∷ [],
  record lowerer { positions = insert axis (pos 0) lowerer.positions },
)

unfoldable pub home_all : GcodeLowerer → List Str → List Command × GcodeLowerer
home_all lowerer [] = ([], lowerer)
home_all lowerer (axis ∷ rest) =
    let (first, lowerer') = home_axis lowerer axis in
    let (later, last) = home_all lowerer' rest in (first ++ later, last)

abbrev pub all_axes : List Str
all_axes = (b'x' ∷ []) ∷ (b'y' ∷ []) ∷ (b'z' ∷ []) ∷ []

-- An axis moves to a target, or by it.
unfoldable pub move_axis : GcodeLowerer → Str → ℤ → List Command × GcodeLowerer
move_axis lowerer axis target_um =
    let current_um = position_at lowerer.positions axis in
    let delta_um =
      if lowerer.absolute_positioning then wrap64 (target_um -ℤ current_um) else target_um in
    let reached =
      if lowerer.absolute_positioning then target_um else wrap64 (current_um +ℤ delta_um) in
    (
      Command.move axis delta_um lowerer.current_feed_rate_um_s ∷ [],
      record lowerer { positions = insert axis reached lowerer.positions },
    )

abbrev pub lower_home : GcodeLowerer → List Str → List Command × GcodeLowerer
lower_home lowerer [] = home_all lowerer all_axes
lower_home lowerer (axis ∷ rest) = home_all lowerer (axis ∷ rest)

module _ {F : Type 0} where
  -- The axes that a homing names.
  unfoldable pub homed_axes : List (ℕ × F) → List Str
  homed_axes [] = []
  homed_axes ((axis, _) ∷ rest) =
      let later = homed_axes rest in
      if is_axis (to_lowercase axis) then (to_lowercase axis ∷ []) ∷ later else later

  unfoldable pub find_param : ℕ → List (ℕ × F) → Option F
  find_param letter [] = none
  find_param letter ((param, val) ∷ rest) =
      let later = find_param letter rest in if param == letter then some val else later

  module _ (numbers : Numbers F) where
    -- The last `F` is the new rate.
    unfoldable pub feed_after : ℕ → List (ℕ × F) → ℕ
    feed_after rate [] = rate
    feed_after rate ((param, val) ∷ rest) =
        feed_after (if param == b'F' then numbers.feed_rate val else rate) rest

    unfoldable pub lower_moves : GcodeLowerer → List (ℕ × F) → List Command × GcodeLowerer
    lower_moves lowerer [] = ([], lowerer)
    lower_moves lowerer ((param, val) ∷ rest) =
        let axis = to_lowercase param in
        let (first, lowerer') =
          if is_axis axis || (axis == b'e')
          then move_axis lowerer (axis ∷ []) (numbers.thousandths val)
          else ([], lowerer) in
        let (later, last) = lower_moves lowerer' rest in (first ++ later, last)

    abbrev pub heat : Str → List (ℕ × F) → List Command
    heat heater tokens = elim (find_param b'S' tokens) [
      | none ↦ []
      | some val ↦ Command.set_heater_target heater (numbers.thousandths val) ∷ []
    ]

    unfoldable pub lower_g : GcodeLowerer → ℕ → List (ℕ × F) → List Command × GcodeLowerer
    lower_g lowerer code params =
        if code == 90
        then ([], record lowerer { absolute_positioning = true })
        else if code == 91
        then ([], record lowerer { absolute_positioning = false })
        else if code == 28
        then lower_home lowerer (homed_axes params)
        else if (code == 0) || (code == 1)
        then lower_moves
            (record lowerer {
              current_feed_rate_um_s = feed_after lowerer.current_feed_rate_um_s params;
            })
            params
        else ([], lowerer)

    unfoldable pub lower_m : GcodeLowerer → ℕ → List (ℕ × F) → List Command
    lower_m lowerer code tokens =
        if (code == 104) || (code == 109)
        then heat lowerer.config.hotend_name tokens
        else if (code == 140) || (code == 190)
        then heat lowerer.config.bed_name tokens
        else if code == 105
        then Command.heartbeat ∷ []
        else []

    unfoldable pub lower_tokens : GcodeLowerer → List (ℕ × F) → List Command × GcodeLowerer
    lower_tokens lowerer [] = ([], lowerer)
    lower_tokens lowerer ((letter, num) ∷ params) =
        if letter == b'G'
        then lower_g lowerer (numbers.as_u64 num) params
        else if letter == b'M'
        then (lower_m lowerer (numbers.as_u64 num) ((letter, num) ∷ params), lowerer)
        else ([], lowerer)

    -- The lines of the text, as `str::lines` splits them.
    unfoldable pub lower_source :
        (ℕ → Bool) → GcodeLowerer → List (List ℕ) → List Command × GcodeLowerer
    lower_source is_whitespace lowerer [] = ([], lowerer)
    lower_source is_whitespace lowerer (raw_line ∷ rest) =
        let tokens = parse_tokens is_whitespace numbers (clean_line is_whitespace raw_line) in
        let (first, lowerer') = lower_tokens lowerer tokens in
        let (later, last) = lower_source is_whitespace lowerer' rest in (first ++ later, last)
