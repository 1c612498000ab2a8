-- ===== src/Protocol/Crc.antt =====
-- crates/control-protocol/src/lib.rs, `crc32c`: the bitwise, reflected CRC-32C.
use Prim.Native.Nat.{bit_and, bit_xor}
use dryer.Base.{ℕ, zero, suc, ◌-◌, ◌/◌, ◌%◌, ◌^◌, ◌<◌, List, [], ◌∷◌, arith}

abbrev pub polynomial : ℕ
polynomial = 0x82f6_3b78

-- `!crc` on a u32.
abbrev pub complement : ℕ → ℕ
complement crc = 2 ^ 32 - 1 - crc

-- `0_u32.wrapping_sub(crc & 1)`: all ones if the lowest bit is set, and zero otherwise.
unfoldable pub mask : ℕ → ℕ
mask crc = (2 ^ 32 - bit_and crc 1) % 2 ^ 32

-- One round of the inner loop.
unfoldable pub crc_bit : ℕ → ℕ
crc_bit crc = bit_xor (crc / 2) (bit_and polynomial (mask crc))

-- `for _ in 0..n`.
unfoldable pub crc_rounds : ℕ → ℕ → ℕ
crc_rounds zero crc = crc
crc_rounds (suc n) crc = crc_rounds n (crc_bit crc)

unfoldable pub crc_byte : ℕ → ℕ → ℕ
crc_byte crc byte = crc_rounds 8 (bit_xor crc byte)

unfoldable pub crc_bytes : ℕ → List ℕ → ℕ
crc_bytes crc [] = crc
crc_bytes crc (byte ∷ bytes) = crc_bytes (crc_byte crc byte) bytes

unfoldable pub crc32c : List ℕ → ℕ
crc32c bytes = complement (crc_bytes (complement 0) bytes)

pub crc32c-lt : (bytes : List ℕ) → crc32c bytes < 2 ^ 32
unfolding crc32c
crc32c-lt bytes = omega arith
