-- ===== src/Protocol/Consumes.antt =====
-- What the reader's actions do in front of the bytes that they expect: each takes them, returns
-- the value that they stand for, and leaves the rest.
use dryer.Base.{
  ℕ, ◌+◌, ◌≤◌, ◌<◌, ◌^◌, ◌≡◌, refl, sym, ap, Bool, true, false, List, [], ◌∷◌, ◌++◌, ok,
  append_assoc, append-nil, length, min, ltb_of_ge, length-append, take-append, arith,
}
use dryer.Base.Int.{ℤ, IsI64, to_bits64, of_bits64-to_bits64, to_bits64-lt}
use dryer.Base.Words.{usize_max, to_le_bytes, from_le_bytes-to_le_bytes}
use dryer.Protocol.{DecodeError, Str, max_string_len}
use dryer.Protocol.Emits.{slice-append}
use dryer.Protocol.Reader.{
  Reader, Read, ◌>>=◌, return, refuse_if, read, read_u8, read_u16, read_u64, read_i64, read_string,
  new,
}

-- A reader that has passed `done` and stands in front of `rest`.
abbrev pub at : List ℕ → List ℕ → Reader
at done rest = record { input = done ++ rest; position = length done }

pub record Consumes {A : Type 0} (m : Read A) (bytes : List ℕ) (a : A) : Type 0 where
  pub consumes :
      (done rest : List ℕ)
      → length done + length bytes ≤ usize_max
      → m (at done (bytes ++ rest)) ≡ ok (a, at (done ++ bytes) rest)

at-append :
    (done bytes rest : List ℕ)
    → record { input = done ++ (bytes ++ rest); position = length done + length bytes }
      ≡ at (done ++ bytes) rest
at-append done bytes rest = λ i. record {
  input = sym (append_assoc done bytes rest) i;
  position = sym (length-append done bytes) i;
}

read-at :
    (bytes done rest : List ℕ)
    → length done + length bytes ≤ usize_max
    → read (length bytes) (at done (bytes ++ rest)) ≡ ok (bytes, at (done ++ bytes) rest)
unfolding read
read-at bytes done rest small =
    rw
      (
        end,
        slice-append (length bytes) done (bytes ++ rest) (omega (arith, length-append bytes rest)),
        read,
      )
      (rw (end, take-append bytes rest) (ap (λ r. ok (bytes, r)) (at-append done bytes rest)))
  where
    end : min (length done + length bytes) usize_max ≡ length done + length bytes
    end = omega arith

pub read-Consumes : (bytes : List ℕ) → Consumes (read (length bytes)) bytes bytes
read-Consumes bytes = record { consumes = read-at bytes }

pub return-Consumes : {A : Type 0} (a : A) → Consumes (return a) [] a
return-Consumes a = record {
  consumes = λ done rest small. ap (λ d. ok (a, at d rest)) (sym (append-nil done));
}

pub >>=-Consumes :
    {A B : Type 0} {m : Read A} {bytes more : List ℕ} {a : A} {b : B} (f : A → Read B)
    → Consumes m bytes a
    → Consumes (f a) more b
    → Consumes (m >>= f) (bytes ++ more) b
>>=-Consumes {A} {B} {m} {bytes} {more} {a} {b} f hm hf = record { consumes = both }
  where
    both :
        (done rest : List ℕ)
        → length done + length (bytes ++ more) ≤ usize_max
        → (m >>= f) (at done ((bytes ++ more) ++ rest)) ≡ ok (b, at (done ++ (bytes ++ more)) rest)
    both done rest small =
        let sum = length-append bytes more in
        rw
          (
            append_assoc bytes more rest,
            hm.consumes done (more ++ rest) (omega (arith, sum)),
            ◌>>=◌,
            hf.consumes (done ++ bytes) rest (omega (arith, sum, length-append done bytes)),
          )
          (rw (append_assoc done bytes more) refl)

pub read_u8-Consumes : (b : ℕ) → Consumes read_u8 (b ∷ []) b
unfolding read_u8
read_u8-Consumes b = >>=-Consumes _ (read-Consumes (b ∷ [])) (return-Consumes b)

pub read_u16-Consumes : (n : ℕ) → n < 2 ^ 16 → Consumes read_u16 (to_le_bytes 2 n) n
unfolding read_u16
read_u16-Consumes n h =
    >>=-Consumes _ (read-Consumes (to_le_bytes 2 n))
      (rw (from_le_bytes-to_le_bytes 2 n h) (return-Consumes n))

pub read_u64-Consumes : (n : ℕ) → n < 2 ^ 64 → Consumes read_u64 (to_le_bytes 8 n) n
unfolding read_u64
read_u64-Consumes n h =
    >>=-Consumes _ (read-Consumes (to_le_bytes 8 n))
      (rw (from_le_bytes-to_le_bytes 8 n h) (return-Consumes n))

pub read_i64-Consumes : (n : ℤ) → IsI64 n → Consumes read_i64 (to_le_bytes 8 (to_bits64 n)) n
unfolding read_i64
read_i64-Consumes n h = >>=-Consumes _ (read-Consumes (to_le_bytes 8 (to_bits64 n))) (
    rw (from_le_bytes-to_le_bytes 8 (to_bits64 n) (to_bits64-lt n h), of_bits64-to_bits64 n h)
      (return-Consumes n))

-- A value in front of the end of what was taken adds no bytes.
pub returning :
    {A B : Type 0} {m : Read A} {bytes : List ℕ} {a : A} {b : B} (f : A → Read B)
    → Consumes m bytes a
    → Consumes (f a) [] b
    → Consumes (m >>= f) bytes b
returning f hm hf = rw (append-nil _) at (>>=-Consumes f hm hf)

pub refuse-Consumes :
    {A : Type 0} {test : Bool} {bytes : List ℕ} {a : A} (e : DecodeError) (k : Read A)
    → test ≡ false
    → Consumes k bytes a
    → Consumes (refuse_if test e >>= λ _. k) bytes a
refuse-Consumes e k h c = rw h c

pub read_string-Consumes :
    (is_utf8 : List ℕ → Bool) (value : Str)
    → length value ≤ max_string_len
    → is_utf8 value ≡ true
    → Consumes (read_string is_utf8) (length value ∷ value) value
unfolding read_string
read_string-Consumes is_utf8 value short valid = >>=-Consumes _ (read_u8-Consumes (length value)) (
    refuse-Consumes _ _ (ltb_of_ge max_string_len (length value) short)
      (returning _ (read-Consumes value) (rw valid (return-Consumes value))))

-- On a payload that is just the bytes, the action ends at the end of the payload.
pub Consumes-whole :
    {A : Type 0} {m : Read A} {bytes : List ℕ} {a : A}
    → Consumes m bytes a
    → length bytes ≤ 128
    → m (new bytes) ≡ ok (a, record { input = bytes; position = length bytes })
Consumes-whole {A} {m} {bytes} {a} c small =
    rw (append-nil bytes) at (c.consumes [] [] (omega arith))
