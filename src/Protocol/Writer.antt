-- ===== src/Protocol/Writer.antt =====
-- crates/control-protocol/src/lib.rs, `Writer`: a cursor over the caller's buffer. An action
-- returns its result and the writer as it leaves it, also when it fails.
use dryer.Base.{ℕ, ◌%◌, none, some, List, [], ◌∷◌, ◌++◌, Result, ok, err, length, take, drop, slice}
use dryer.Base.Words.{saturating_add}
use dryer.Protocol.{EncodeError, Str}

pub record Writer : Type 0 where
  pub output : List ℕ
  pub position : ℕ

-- An action on the writer that may fail.
abbrev pub Write : Type 0 → Type 0
Write A = Writer → Result EncodeError A × Writer

-- A failed action ends the chain, and the writer stays as it left it.
abbrev pub proceed :
    {A B : Type 0} → Result EncodeError A × Writer → (A → Write B) → Result EncodeError B × Writer
proceed (ok a, w) f = f a w
proceed (err e, w) f = (err e, w)

infixl 5 ◌>>=◌ ◌>>◌
abbrev pub ◌>>=◌ : {A B : Type 0} → Write A → (A → Write B) → Write B
◌>>=◌ m f w = proceed (m w) f

abbrev pub ◌>>◌ : {B : Type 0} → Write (Unit {0}) → Write B → Write B
m >> k = m >>= λ _. k

abbrev pub new : List ℕ → Writer
new output = record { output = output; position = 0 }

-- `copy_from_slice` into `output[from..to]`.
abbrev pub copy_into : List ℕ → ℕ → ℕ → List ℕ → List ℕ
copy_into output from to bytes = take from output ++ (bytes ++ drop to output)

unfoldable pub write : List ℕ → Write (Unit {0})
write bytes w =
    let end = saturating_add w.position (length bytes) in
    elim (slice w.output w.position end) [
      | none ↦ (err (EncodeError.buffer_too_small end (length w.output)), w)
      | some _ ↦
          (ok tt, record w { output = copy_into w.output w.position end bytes; position = end })
    ]

unfoldable pub write_u8 : ℕ → Write (Unit {0})
write_u8 value = write (value ∷ [])

-- `value.len() as u8` keeps the lowest byte of the length.
unfoldable pub write_string : Str → Write (Unit {0})
write_string value = do write_u8 (length value % 256); write value

-- `writer.position()` and `writer.buffer()`.
abbrev pub position : Write ℕ
position w = (ok w.position, w)

abbrev pub buffer : Write (List ℕ)
buffer w = (ok w.output, w)

-- `value?` inside an action.
abbrev pub lift : {A : Type 0} → Result EncodeError A → Write A
lift r w = (r, w)
