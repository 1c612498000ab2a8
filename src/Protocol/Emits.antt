-- ===== src/Protocol/Emits.antt =====
-- What the writer's actions do to a buffer with room: each puts its bytes behind those that are
-- written already, and leaves the rest of the buffer as it was.
use dryer.Base.{
  ℕ, ◌+◌, ◌-◌, ◌≤◌, ◌<◌, ◌≡◌, refl, sym, ap, some, List, [], ◌∷◌, ◌++◌, ok, append_assoc, length,
  take, drop, slice, min, length-append, take-append, drop-append, drop-append_add, drop-drop,
  length-drop, arith,
}
use native.Mathlib.Nat.{mod-eq_of_lt}
use dryer.Base.Words.{usize_max}
use dryer.Protocol.Writer.{Writer, Write, ◌>>◌, write, write_u8, write_string}

-- A writer with `done` written, in front of `rest`.
abbrev pub at : List ℕ → List ℕ → Writer
at done rest = record { output = done ++ rest; position = length done }

-- The range behind `done` lies in the buffer.
pub slice-append :
    {A : Type 0} (n : ℕ) (done rest : List A)
    → n ≤ length rest
    → slice (done ++ rest) (length done) (length done + n) ≡ some (take n rest)
slice-append n done rest h = ground (arith, length-append done rest, drop-append done rest, inside)
  where
    inside : length done + n - length done ≡ n
    inside = omega arith

pub at-append :
    (done bytes rest : List ℕ)
    → record { output = done ++ (bytes ++ rest); position = length done + length bytes }
      ≡ at (done ++ bytes) rest
at-append done bytes rest = λ i. record {
  output = sym (append_assoc done bytes rest) i;
  position = sym (length-append done bytes) i;
}

-- The action puts `bytes` into the room in front of it, and succeeds.
pub record Emits (m : Write (Unit {0})) (bytes : List ℕ) : Type 0 where
  pub emits :
      (done rest : List ℕ)
      → length bytes ≤ length rest
      → length done + length bytes ≤ usize_max
      → m (at done rest) ≡ (ok tt, at (done ++ bytes) (drop (length bytes) rest))

write-at :
    (bytes done rest : List ℕ)
    → length bytes ≤ length rest
    → length done + length bytes ≤ usize_max
    → write bytes (at done rest) ≡ (ok tt, at (done ++ bytes) (drop (length bytes) rest))
unfolding write
write-at bytes done rest room small =
    rw (end, slice-append (length bytes) done rest room, write)
      (rw (end, take-append done rest, drop-append_add (length bytes) done rest)
        (ap (λ w. (ok tt, w)) (at-append done bytes (drop (length bytes) rest))))
  where
    end : min (length done + length bytes) usize_max ≡ length done + length bytes
    end = omega arith

pub write-Emits : (bytes : List ℕ) → Emits (write bytes) bytes
write-Emits bytes = record { emits = write-at bytes }

-- Actions in a row write their bytes in a row.
pub >>-Emits :
    {m k : Write (Unit {0})} {bytes more : List ℕ}
    → Emits m bytes
    → Emits k more
    → Emits (m >> k) (bytes ++ more)
>>-Emits {m} {k} {bytes} {more} hm hk = record { emits = both }
  where
    both :
        (done rest : List ℕ)
        → length (bytes ++ more) ≤ length rest
        → length done + length (bytes ++ more) ≤ usize_max
        → (m >> k) (at done rest)
          ≡ (ok tt, at (done ++ (bytes ++ more)) (drop (length (bytes ++ more)) rest))
    both done rest room small =
        let sum = length-append bytes more in
        rw
          (
            hm.emits done rest (omega (arith, sum)) (omega (arith, sum)),
            hk.emits (done ++ bytes) (drop (length bytes) rest)
                (omega (arith, sum, length-drop (length bytes) rest))
                (omega (arith, sum, length-append done bytes)),
          )
          (rw (append_assoc done bytes more, sum, drop-drop (length bytes) (length more) rest) refl)

pub write_u8-Emits : (value : ℕ) → Emits (write_u8 value) (value ∷ [])
unfolding write_u8
write_u8-Emits value = write-Emits (value ∷ [])

pub write_string-Emits :
    (value : List ℕ) → length value < 256 → Emits (write_string value) (length value ∷ value)
unfolding write_string
write_string-Emits value short =
    rw (mod-eq_of_lt short) (>>-Emits (write_u8-Emits (length value)) (write-Emits value))
