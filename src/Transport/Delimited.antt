-- ===== src/Transport/Delimited.antt =====
-- crates/transport-adapter/src/lib.rs: what the delimiter delivers, against the frame layout of
-- crates/control-protocol/src/lib.rs.
use mathlib.Core.Path.{subst, ap₂}
use dryer.Base.{
  ℕ, zero, suc, ◌+◌, ◌-◌, ◌≤◌, ◌<◌, ◌^◌, ◌≡◌, refl, sym, ap, ◌∙◌, true, inl, inr, none, some, List,
  [], ◌∷◌, ◌++◌, All, length, take, drop, get_or, length-drop, length-take, leb, ◌==◌, ◌&&◌, ==_iff,
  Option-cases, arith,
}
use dryer.Base.Words.{
  IsByte, to_le_bytes, from_le_bytes, to_le_bytes-from_le_bytes, from_le_bytes-lt,
}
use dryer.Protocol.Crc.{crc32c}
use dryer.Protocol.Layout.{covered, frame_bytes}
use dryer.Transport.Codec.{
  Round, returned, again, magic_position, byte_at, valid_header, frame_len_of, payload_len_of,
  checksum_matches,
}

-- A frame in the layout, of a known type and a legal size.
pub record IsFrame (bytes : List ℕ) : Type 0 where
  pub message_type : ℕ
  pub sequence : ℕ
  pub payload : List ℕ
  pub known : (1 ≤ message_type) × (message_type ≤ 4)
  pub numbered : sequence < 2 ^ 32
  pub small : length payload ≤ 128
  pub laid_out : bytes ≡ frame_bytes message_type sequence payload

pub magic_zero :
    (a b : ℕ) (rest : List ℕ) → magic_position (a ∷ b ∷ rest) ≡ some 0 → (a ≡ b'D') × (b ≡ b'R')
unfolding magic_position
magic_zero a b rest h = elim (Option-cases (magic_position (b ∷ rest))) [
  | inl nowhere ↦ ground (arith, nowhere)
  | inr (p, found) ↦ ground (arith, found)
]

four_bytes :
    (tail : List ℕ) (n : ℕ)
    → n + 4 ≤ length tail
    → take 4 (drop n tail)
      ≡ get_or tail n 0 ∷ get_or tail (n + 1) 0 ∷ get_or tail (n + 2) 0 ∷ get_or tail (n + 3) 0 ∷ []
four_bytes [] n h = absurd (omega arith)
four_bytes (a ∷ b ∷ c ∷ d ∷ tail) zero h = refl
four_bytes (a ∷ b ∷ c ∷ []) zero h = absurd (omega arith)
four_bytes (a ∷ b ∷ []) zero h = absurd (omega arith)
four_bytes (a ∷ []) zero h = absurd (omega arith)
four_bytes (x ∷ tail) (suc n) h = rw (out 1, out 2, out 3) (four_bytes tail n (omega arith))
  where
    out : (k : ℕ) → suc n + k ≡ suc (n + k)
    out k = omega arith

pub take_add : (n m : ℕ) (xs : List ℕ) → take (n + m) xs ≡ take n xs ++ take m (drop n xs)
take_add zero m xs = let e : 0 + m ≡ m = omega arith in rw e refl
take_add (suc n) m [] = let e : suc n + m ≡ suc (n + m) = omega arith in rw e (sym (take_nil m))
  where
    take_nil : (k : ℕ) → take {A = ℕ} k [] ≡ []
    take_nil zero = refl
    take_nil (suc k) = refl
take_add (suc n) m (x ∷ xs) =
    let e : suc n + m ≡ suc (n + m) = omega arith in rw e (ap (◌∷◌ x) (take_add n m xs))

All-take {κ} : {A : Type 0} (P : A → Type κ) (n : ℕ) (xs : List A) → All P xs → All P (take n xs)
All-take P zero xs h = tt
All-take P (suc n) [] h = tt
All-take P (suc n) (x ∷ xs) (p, h) = (p, All-take P n xs h)

pub All-drop {κ} :
    {A : Type 0} (P : A → Type κ) (n : ℕ) (xs : List A) → All P xs → All P (drop n xs)
All-drop P zero xs h = h
All-drop P (suc n) [] h = tt
All-drop P (suc n) (x ∷ xs) (p, h) = All-drop P n xs h

to_le_four : (xs : List ℕ) → length xs ≡ 4 → All IsByte xs → to_le_bytes 4 (from_le_bytes xs) ≡ xs
to_le_four xs e h =
    subst (λ k. to_le_bytes k (from_le_bytes xs) ≡ xs) e (to_le_bytes-from_le_bytes xs h)

-- The header's ten bytes and what follows them.
module _ (b₀ b₁ b₂ b₃ b₄ b₅ b₆ b₇ b₈ b₉ : ℕ) (tail : List ℕ) where
  abbrev pub whole : List ℕ
  whole = b₀ ∷ b₁ ∷ b₂ ∷ b₃ ∷ b₄ ∷ b₅ ∷ b₆ ∷ b₇ ∷ b₈ ∷ b₉ ∷ tail

  past_header : (n k : ℕ) → byte_at whole (10 + n + k) ≡ get_or tail (n + k) 0
  past_header n k = ap (λ i. get_or whole i 0) out
    where
      out : 10 + n + k ≡ suc (suc (suc (suc (suc (suc (suc (suc (suc (suc (n + k))))))))))
      out = omega arith

  past_end : (n : ℕ) → byte_at whole (10 + n) ≡ get_or tail n 0
  past_end n = ap (λ i. get_or whole i 0) out
    where
      out : 10 + n ≡ suc (suc (suc (suc (suc (suc (suc (suc (suc (suc n)))))))))
      out = omega arith

  pub stored :
      (n : ℕ)
      → n + 4 ≤ length tail
      → byte_at whole (10 + n)
          ∷ byte_at whole (10 + n + 1)
          ∷ byte_at whole (10 + n + 2)
          ∷ byte_at whole (10 + n + 3)
          ∷ []
        ≡ take 4 (drop n tail)
  stored n room =
      rw (past_end n, past_header n 1, past_header n 2, past_header n 3)
        (sym (four_bytes tail n room))

  module _ (n : ℕ) (d : b₀ ≡ b'D') (r : b₁ ≡ b'R') (v : b₂ ≡ 1) (bytes : All IsByte whole)
      (n_is : n ≡ from_le_bytes (b₈ ∷ b₉ ∷ [])) (room : n + 4 ≤ length tail)
      (sum : from_le_bytes (
          byte_at whole (10 + n)
          ∷ byte_at whole (10 + n + 1)
          ∷ byte_at whole (10 + n + 2)
          ∷ byte_at whole (10 + n + 3)
          ∷ [])
        ≡ crc32c (take (10 + n - 2) (drop 2 whole))) where
    sequence_of : ℕ
    sequence_of = from_le_bytes (b₄ ∷ b₅ ∷ b₆ ∷ b₇ ∷ [])

    fields :
        (to_le_bytes 4 sequence_of ≡ b₄ ∷ b₅ ∷ b₆ ∷ b₇ ∷ [])
        × (to_le_bytes 2 (length (take n tail)) ≡ b₈ ∷ b₉ ∷ [])
        × (sequence_of < 2 ^ 32)
    unfolding sequence_of
    fields =
        let (i₀, (i₁, (i₂, (i₃, (i₄, (i₅, (i₆, (i₇, (i₈, (i₉, rest)))))))))) = bytes in
        let len_is : length (take n tail) ≡ from_le_bytes (b₈ ∷ b₉ ∷ []) =
          omega (arith, length-take n tail, n_is, room) in
        (
          to_le_bytes-from_le_bytes (b₄ ∷ b₅ ∷ b₆ ∷ b₇ ∷ []) (i₄, (i₅, (i₆, (i₇, tt)))),
          rw len_is (to_le_bytes-from_le_bytes (b₈ ∷ b₉ ∷ []) (i₈, (i₉, tt))),
          from_le_bytes-lt (b₄ ∷ b₅ ∷ b₆ ∷ b₇ ∷ []) (i₄, (i₅, (i₆, (i₇, tt)))),
        )

    covered_is :
        covered b₃ sequence_of (take n tail) ≡ 1 ∷ b₃ ∷ b₄ ∷ b₅ ∷ b₆ ∷ b₇ ∷ b₈ ∷ b₉ ∷ take n tail
    covered_is =
        let (s, l, _) = fields in ap₂ (λ (xs ys : List ℕ). 1 ∷ b₃ ∷ (xs ++ (ys ++ take n tail))) s l

    summed : take (10 + n - 2) (drop 2 whole) ≡ covered b₃ sequence_of (take n tail)
    summed =
        ap (λ k. take k (drop 2 whole)) out
        ∙ ap (λ x. x ∷ b₃ ∷ b₄ ∷ b₅ ∷ b₆ ∷ b₇ ∷ b₈ ∷ b₉ ∷ take n tail) v
        ∙ sym covered_is
      where
        out : 10 + n - 2 ≡ suc (suc (suc (suc (suc (suc (suc (suc n)))))))
        out = omega arith

    checksum_is :
        to_le_bytes 4 (crc32c (covered b₃ sequence_of (take n tail))) ≡ take 4 (drop n tail)
    checksum_is =
        let (i₀, (i₁, (i₂, (i₃, (i₄, (i₅, (i₆, (i₇, (i₈, (i₉, rest)))))))))) = bytes in
        ap (to_le_bytes 4) (ap crc32c (sym summed) ∙ sym sum ∙ ap from_le_bytes (stored n room))
        ∙ to_le_four (take 4 (drop n tail))
            (omega (arith, length-take 4 (drop n tail), length-drop n tail, room))
            (All-take IsByte 4 (drop n tail) (All-drop IsByte n tail rest))

    laid_out_is : take (10 + n + 4) whole ≡ frame_bytes b₃ sequence_of (take n tail)
    laid_out_is =
        ap (λ k. take k whole) out
        ∙ ap (λ xs. b₀ ∷ b₁ ∷ b₂ ∷ b₃ ∷ b₄ ∷ b₅ ∷ b₆ ∷ b₇ ∷ b₈ ∷ b₉ ∷ xs) (take_add n 4 tail)
        ∙ (λ i.
            d i
            ∷ r i
            ∷ v i
            ∷ b₃
            ∷ b₄
            ∷ b₅
            ∷ b₆
            ∷ b₇
            ∷ b₈
            ∷ b₉
            ∷ (take n tail ++ take 4 (drop n tail)))
        ∙ sym (ap₂ (λ (xs ys : List ℕ). b'D' ∷ b'R' ∷ (xs ++ ys)) covered_is checksum_is)
      where
        out : 10 + n + 4 ≡ suc (suc (suc (suc (suc (suc (suc (suc (suc (suc (n + 4))))))))))
        out = omega arith

header_tests :
    (v t n : ℕ)
    → ((v == 1) && (leb 1 t && leb t 4) && leb n 128) ≡ true
    → (v ≡ 1) × ((1 ≤ t) × (t ≤ 4)) × (n ≤ 128)
header_tests v t n h = ground arith

-- Each round against what it was given: it drops bytes from the front, and delivers only a frame.
abbrev pub Sound : List ℕ → Round → Type 0
Sound buffer (returned none rest) = (skipped : List ℕ) × (buffer ≡ skipped ++ rest)
Sound buffer (returned (some frame) rest) = (buffer ≡ frame ++ rest) × IsFrame frame
Sound buffer (again rest) = (skipped : List ℕ) × (buffer ≡ skipped ++ rest)

pub delivered_IsFrame :
    (buffer : List ℕ)
    → magic_position buffer ≡ some 0
    → All IsByte buffer
    → 10 ≤ length buffer
    → valid_header buffer ≡ true
    → frame_len_of buffer ≤ length buffer
    → checksum_matches buffer ≡ true
    → IsFrame (take (frame_len_of buffer) buffer)
unfolding sequence_of
delivered_IsFrame (b₀ ∷ b₁ ∷ b₂ ∷ b₃ ∷ b₄ ∷ b₅ ∷ b₆ ∷ b₇ ∷ b₈ ∷ b₉ ∷ tail) start bytes long valid
      room sum =
    let buffer = b₀ ∷ b₁ ∷ b₂ ∷ b₃ ∷ b₄ ∷ b₅ ∷ b₆ ∷ b₇ ∷ b₈ ∷ b₉ ∷ tail in
    let n = payload_len_of buffer in
    let (d, r) = magic_zero b₀ b₁ _ start in
    let (v, known, small) = header_tests b₂ b₃ n valid in
    let room' : n + 4 ≤ length tail = omega (arith, room) in
    let summed = (==_iff _ _).0 sum in
    let (_, _, numbered) =
      fields b₀ b₁ b₂ b₃ b₄ b₅ b₆ b₇ b₈ b₉ tail n d r v bytes refl room' summed in
    record {
      message_type = b₃;
      sequence = from_le_bytes (b₄ ∷ b₅ ∷ b₆ ∷ b₇ ∷ []);
      payload = take n tail;
      known = known;
      numbered = numbered;
      small = omega (arith, length-take n tail, small);
      laid_out = laid_out_is b₀ b₁ b₂ b₃ b₄ b₅ b₆ b₇ b₈ b₉ tail n d r v bytes refl room' summed;
    }
delivered_IsFrame _ start bytes long valid room sum = absurd (omega arith)
