-- ===== src/Lowerer.antt =====
-- crates/gcode-lowerer/src/lib.rs: G-code lowered to commands. A text is the list of its characters.
-- Parameters stand for what the source takes from Rust's library: which characters are white space, how
-- a number is read, and the conversions of an f64, of a type F here.
pub mod Text
pub mod Lines
pub mod Tracks
mod Examples
use dryer.Base.{ℕ, ◌-◌, ◌+◌, Bool, true, Option, List, [], ◌∷◌, ltb, ◌&&◌, leb, if◌then◌else◌}
use dryer.Base.Int.{ℤ}
use dryer.Protocol.{Str}

pub record LowererConfig : Type 0 where
  pub default_feed_rate_um_s : ℕ
  pub hotend_name : Str
  pub bed_name : Str

pub record GcodeLowerer : Type 0 where
  pub config : LowererConfig
  pub current_feed_rate_um_s : ℕ
  pub absolute_positioning : Bool
  pub positions : List (Str × ℤ)

abbrev pub new_lowerer : LowererConfig → GcodeLowerer
new_lowerer config = record {
  config = config;
  current_feed_rate_um_s = config.default_feed_rate_um_s;
  absolute_positioning = true;
  positions = [];
}

-- `rest.parse::<f64>()`, `val as u64`, `(val * 1000.0) as i64` and `(val * 1000.0 / 60.0).max(1.0) as u64`.
pub record Numbers (F : Type 0) : Type 0 where
  pub parse : List ℕ → Option F
  pub as_u64 : F → ℕ
  pub thousandths : F → ℤ
  pub feed_rate : F → ℕ

-- `to_ascii_uppercase`. The lower case is needed of the upper-case letters of the axes alone, which no
-- other character shares.
abbrev pub to_ascii_uppercase : ℕ → ℕ
to_ascii_uppercase c = if leb b'a' c && leb c b'z' then c - 32 else c

abbrev pub to_lowercase : ℕ → ℕ
to_lowercase c = if leb b'A' c && leb c b'Z' then c + 32 else c
