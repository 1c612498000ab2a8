-- ===== src/Protocol/Reader.antt =====
-- crates/control-protocol/src/lib.rs, `Reader`: a cursor over one payload. The reader is local to
-- the decoders, so a failed action leaves none behind.
use dryer.Base.{
  ℕ, ◌-◌, Bool, true, false, none, some, List, Result, ok, err, length, get_or, slice, ltb,
  if◌then◌else◌,
}
use dryer.Base.Int.{ℤ, of_bits64}
use dryer.Base.Words.{saturating_add, from_le_bytes}
use dryer.Protocol.{DecodeError, Str, max_string_len}

pub record Reader : Type 0 where
  pub input : List ℕ
  pub position : ℕ

abbrev pub Read : Type 0 → Type 0
Read A = Reader → Result DecodeError (A × Reader)

infixl 5 ◌>>=◌ ◌>>◌
abbrev pub ◌>>=◌ : {A B : Type 0} → Read A → (A → Read B) → Read B
◌>>=◌ m f r = elim (m r) [ ok (a, r') ↦ f a r' | err e ↦ err e ]

abbrev pub ◌>>◌ : {B : Type 0} → Read (Unit {0}) → Read B → Read B
m >> k = m >>= λ _. k

abbrev pub return : {A : Type 0} → A → Read A
return a r = ok (a, r)

abbrev pub fail : {A : Type 0} → DecodeError → Read A
fail e r = err e

abbrev pub refuse_if : Bool → DecodeError → Read (Unit {0})
refuse_if true e = fail e
refuse_if false e = return tt

abbrev pub new : List ℕ → Reader
new input = record { input = input; position = 0 }

-- `self.input.len().saturating_sub(self.position)`.
abbrev pub remaining : Read ℕ
remaining r = ok (length r.input - r.position, r)

unfoldable pub read : ℕ → Read (List ℕ)
read len r =
    let end = saturating_add r.position len in
    elim (slice r.input r.position end) [
      | none ↦ err (DecodeError.truncated end (length r.input))
      | some bytes ↦ ok (bytes, record r { position = end })
    ]

unfoldable pub read_u8 : Read ℕ
read_u8 = do bytes ← read 1; return (get_or bytes 0 0)

unfoldable pub read_u16 : Read ℕ
read_u16 = do bytes ← read 2; return (from_le_bytes bytes)

unfoldable pub read_u64 : Read ℕ
read_u64 = do bytes ← read 8; return (from_le_bytes bytes)

unfoldable pub read_i64 : Read ℤ
read_i64 = do bytes ← read 8; return (of_bits64 (from_le_bytes bytes))

-- `core::str::from_utf8` is the parameter `is_utf8`, which accepts the bytes or not.
unfoldable pub read_string : (List ℕ → Bool) → Read Str
read_string is_utf8 = do
  len ← read_u8
  refuse_if (ltb max_string_len len) (DecodeError.string_too_long len max_string_len)
  bytes ← read len
  if is_utf8 bytes then return bytes else fail DecodeError.invalid_utf8
