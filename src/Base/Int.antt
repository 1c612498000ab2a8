-- ===== src/Base/Int.antt =====
-- Signed integers over the native numbers, under the library's names, with the checked operations
-- of a Rust `i128` and the bit patterns of an `i64`.
use Prim.Native.Nat.{ℕ, zero, suc, ◌+◌, ◌-◌, ◌*◌, ◌/◌, ◌%◌, ◌^◌, ◌≤◌, ◌<◌}
use mathlib.Core.Path.{◌≡◌, refl}
use mathlib.Core.Logic.{◌⊎◌, inl, inr}
use mathlib.Core.Bool.{Bool, true, false, not, ◌||◌}
use mathlib.Core.Option.{Option, none, some}
use native.Mathlib.Omega.{arith}
use dryer.Base.Tests.{ltb, leb, ◌==◌, if◌then◌else◌}

-- `negsuc n` is -(n + 1).
pub data ℤ : Type 0 where
  pos : ℕ → ℤ
  negsuc : ℕ → ℤ

abbrev pub pos_part : ℤ → ℕ
pos_part (pos n) = n
pos_part (negsuc n) = 0

abbrev pub neg_part : ℤ → ℕ
neg_part (pos n) = 0
neg_part (negsuc n) = suc n

-- a - b, as an integer.
abbrev pub sub_ℕ : ℕ → ℕ → ℤ
sub_ℕ a b = if leb b a then pos (a - b) else negsuc (b - a - 1)

infixl 65 ◌+ℤ◌ ◌-ℤ◌
infixl 70 ◌*ℤ◌
infix 50 ◌≤ℤ◌
unfoldable pub ◌+ℤ◌ : ℤ → ℤ → ℤ
a +ℤ b = sub_ℕ (pos_part a + pos_part b) (neg_part a + neg_part b)

unfoldable pub ◌-ℤ◌ : ℤ → ℤ → ℤ
a -ℤ b = sub_ℕ (pos_part a + neg_part b) (neg_part a + pos_part b)

unfoldable pub ◌*ℤ◌ : ℤ → ℤ → ℤ
a *ℤ b =
    sub_ℕ (pos_part a * pos_part b + neg_part a * neg_part b)
      (pos_part a * neg_part b + neg_part a * pos_part b)

abbrev pub ◌≤ℤ◌ : ℤ → ℤ → Type 0
a ≤ℤ b = pos_part a + neg_part b ≤ pos_part b + neg_part a

abbrev pub ltb_ℤ : ℤ → ℤ → Bool
ltb_ℤ a b = ltb (pos_part a + neg_part b) (pos_part b + neg_part a)

-- One lemma for each operation lets `omega` work with the operations shut, at any depth.
pub +ℤ_parts :
    (a b : ℤ)
    → pos_part (a +ℤ b) + neg_part a + neg_part b ≡ neg_part (a +ℤ b) + pos_part a + pos_part b
unfolding ◌+ℤ◌
+ℤ_parts a b = ground arith

pub -ℤ_parts :
    (a b : ℤ)
    → pos_part (a -ℤ b) + neg_part a + pos_part b ≡ neg_part (a -ℤ b) + pos_part a + neg_part b
unfolding ◌-ℤ◌
-ℤ_parts a b = ground arith

pub eq_of_parts : (a b : ℤ) → pos_part a + neg_part b ≡ pos_part b + neg_part a → a ≡ b
eq_of_parts a b h = ground arith

pub ruleset int_laws = (arith, +ℤ_parts, -ℤ_parts, eq_of_parts)

-- The `i64` of a bit pattern, and back. A negative number is stored as its value plus 2 ^ 64.
abbrev pub to_bits64 : ℤ → ℕ
to_bits64 (pos n) = n
to_bits64 (negsuc n) = 2 ^ 64 - suc n

abbrev pub of_bits64 : ℕ → ℤ
of_bits64 w = if ltb w (2 ^ 63) then pos w else negsuc (2 ^ 64 - suc w)

abbrev pub IsI64 : ℤ → Type 0
IsI64 (pos n) = n < 2 ^ 63
IsI64 (negsuc n) = n < 2 ^ 63

pub of_bits64-to_bits64 : (a : ℤ) → IsI64 a → of_bits64 (to_bits64 a) ≡ a
of_bits64-to_bits64 (pos n) h = ground arith
of_bits64-to_bits64 (negsuc n) h = ground arith

pub to_bits64-lt : (a : ℤ) → IsI64 a → to_bits64 a < 2 ^ 64
to_bits64-lt (pos n) h = omega arith
to_bits64-lt (negsuc n) h = omega arith

pub to_bits64-of_bits64 : (w : ℕ) → w < 2 ^ 64 → to_bits64 (of_bits64 w) ≡ w
to_bits64-of_bits64 w h = ground arith

pub of_bits64-IsI64 : (w : ℕ) → w < 2 ^ 64 → IsI64 (of_bits64 w)
of_bits64-IsI64 w h = ground arith

-- The `i64` that is left of a sum that leaves the range.
abbrev pub wrap64 : ℤ → ℤ
wrap64 (pos n) = of_bits64 (n % 2 ^ 64)
wrap64 (negsuc n) = of_bits64 (2 ^ 64 - 1 - n % 2 ^ 64)

-- The range of an `i128`, and `checked_*`: the exact result if it lies in the range.
abbrev pub in_i128 : ℤ → Bool
in_i128 (pos n) = ltb n (2 ^ 127)
in_i128 (negsuc n) = ltb n (2 ^ 127)

abbrev pub checked : ℤ → Option ℤ
checked a = if in_i128 a then some a else none

abbrev pub magnitude : ℤ → ℕ
magnitude (pos n) = n
magnitude (negsuc n) = suc n

abbrev pub is_negative : ℤ → Bool
is_negative (pos n) = false
is_negative (negsuc n) = true

abbrev pub negated : ℕ → ℤ
negated zero = pos 0
negated (suc n) = negsuc n

abbrev pub signs_differ : ℤ → ℤ → Bool
signs_differ (pos n) (pos m) = false
signs_differ (pos n) (negsuc m) = true
signs_differ (negsuc n) (pos m) = true
signs_differ (negsuc n) (negsuc m) = false

-- Division toward zero, and the remainder with the dividend's sign.
unfoldable pub quotient : ℤ → ℤ → ℤ
quotient a b = let q = magnitude a / magnitude b in if signs_differ a b then negated q else pos q

unfoldable pub remainder : ℤ → ℤ → ℤ
remainder a b = let r = magnitude a % magnitude b in if is_negative a then negated r else pos r

-- `checked_div` and `checked_rem` fail on a zero divisor and where the quotient leaves the range.
unfoldable pub checked_div : ℤ → ℤ → Option ℤ
checked_div a b = if magnitude b == 0 then none else checked (quotient a b)

unfoldable pub checked_rem : ℤ → ℤ → Option ℤ
checked_rem a b =
    if magnitude b == 0 || not (in_i128 (quotient a b)) then none else some (remainder a b)

abbrev pub min_ℤ : ℤ → ℤ → ℤ
min_ℤ a b = if ltb_ℤ b a then b else a

abbrev pub max_ℤ : ℤ → ℤ → ℤ
max_ℤ a b = if ltb_ℤ b a then a else b

pub ltb_ℤ_lt : (a b : ℤ) → ltb_ℤ a b ≡ true → pos_part a + neg_part b < pos_part b + neg_part a
ltb_ℤ_lt a b h = ground arith

pub ltb_ℤ_ge : (a b : ℤ) → ltb_ℤ a b ≡ false → b ≤ℤ a
ltb_ℤ_ge a b h = ground arith

-- One of the two parts is zero.
pub one_sided : (a : ℤ) → (pos_part a ≡ 0) ⊎ (neg_part a ≡ 0)
one_sided (pos n) = inr refl
one_sided (negsuc n) = inl refl
