-- ===== src/Lowerer/Examples.antt =====
-- crates/gcode-lowerer/src/lib.rs: two lines of G-code, with whole numbers in place of f64.
use dryer.Base.{
  ℕ, ◌+◌, ◌-◌, ◌*◌, ◌/◌, ◌%◌, ◌^◌, ◌==◌, ◌&&◌, Bool, Option, none, some, List, [], ◌∷◌, leb,
  if◌then◌else◌, arith,
}
use dryer.Base.Int.{of_bits64, of_bits64-IsI64}
use dryer.Lowerer.{GcodeLowerer, Numbers, new_lowerer}
use dryer.Lowerer.Lines.{lower_source}
use dryer.Lowerer.Tracks.{Tracks, lower_source-Tracks}

abbrev digits : ℕ → List ℕ → Option ℕ
digits value [] = some value
digits value (c ∷ rest) =
    let later = digits (value * 10 + (c - 48)) rest in if leb 48 c && leb c 57 then later else none

abbrev whole_numbers : Numbers ℕ
whole_numbers = record {
  parse = digits 0;
  as_u64 = λ val. val;
  thousandths = λ val. of_bits64 (val * 1_000 % 2 ^ 64);
  feed_rate = λ val. val * 1_000 / 60;
}

abbrev is_space : ℕ → Bool
is_space c = c == 32

abbrev lowerer : GcodeLowerer
lowerer =
    new_lowerer
      (record { default_feed_rate_um_s = 10_000; hotend_name = b'h' ∷ []; bed_name = b'b' ∷ [] })

-- `G1 X15 ;x` and `G28`.
abbrev lines : List (List ℕ)
lines =
    (b'G' ∷ b'1' ∷ 32 ∷ b'X' ∷ b'1' ∷ b'5' ∷ 32 ∷ b';' ∷ b'x' ∷ []) ∷ (b'G' ∷ b'2' ∷ b'8' ∷ []) ∷ []

lower_source-Tracks_example : Tracks lowerer (lower_source whole_numbers is_space lowerer lines)
lower_source-Tracks_example =
    lower_source-Tracks whole_numbers (λ val. of_bits64-IsI64 (val * 1_000 % 2 ^ 64) (omega arith))
      is_space lowerer lines
