-- ===== src/Base/Names.antt =====
-- Byte strings as keys, and a `BTreeMap<String, _>` as the list of its entries in key order.
use dryer.Base.{
  ℕ, ◌==◌, ◌≡◌, refl, Bool, true, false, inl, inr, ◌&&◌, ◌||◌, Option, none, some, List, [], ◌∷◌,
  ltb, Bool-cases, if◌then◌else◌, arith,
}

abbrev pub same_bytes : List ℕ → List ℕ → Bool
same_bytes [] [] = true
same_bytes [] (y ∷ ys) = false
same_bytes (x ∷ xs) [] = false
same_bytes (x ∷ xs) (y ∷ ys) = (x == y) && same_bytes xs ys

-- The order of Rust's strings: by bytes, a prefix first.
abbrev pub bytes_below : List ℕ → List ℕ → Bool
bytes_below xs [] = false
bytes_below [] (y ∷ ys) = true
bytes_below (x ∷ xs) (y ∷ ys) = ltb x y || ((x == y) && bytes_below xs ys)

module _ {V : Type 0} where
  abbrev pub lookup : List (List ℕ × V) → List ℕ → Option V
  lookup [] key = none
  lookup ((k, v) ∷ rest) key =
      let later = lookup rest key in if same_bytes k key then some v else later

  abbrev pub insert : List ℕ → V → List (List ℕ × V) → List (List ℕ × V)
  insert key value [] = (key, value) ∷ []
  insert key value ((k, v) ∷ rest) =
      let later = insert key value rest in
      if same_bytes k key
      then (key, value) ∷ rest
      else if bytes_below key k
      then (key, value) ∷ (k, v) ∷ rest
      else (k, v) ∷ later

pub same_bytes_refl : (xs : List ℕ) → same_bytes xs xs ≡ true
same_bytes_refl [] = refl
same_bytes_refl (x ∷ xs) = ground (arith, same_bytes_refl xs)

pub same_bytes→≡ : (xs ys : List ℕ) → same_bytes xs ys ≡ true → xs ≡ ys
same_bytes→≡ [] [] h = refl
same_bytes→≡ [] (y ∷ ys) h = cc
same_bytes→≡ (x ∷ xs) [] h = cc
same_bytes→≡ (x ∷ xs) (y ∷ ys) h = ground (arith, same_bytes→≡ xs ys)

module _ {V : Type 0} where
  pub lookup-insert :
      (key : List ℕ) (value : V) (entries : List (List ℕ × V))
      → lookup (insert key value entries) key ≡ some value
  lookup-insert key value [] = rw (same_bytes_refl key) refl
  lookup-insert key value ((k, v) ∷ rest) =
      ground (arith, same_bytes_refl key, lookup-insert key value rest)

  pub lookup-insert_other :
      (key other : List ℕ) (value : V) (entries : List (List ℕ × V))
      → same_bytes key other ≡ false
      → lookup (insert key value entries) other ≡ lookup entries other
  lookup-insert_other key other value [] h = rw h refl
  lookup-insert_other key other value ((k, v) ∷ rest) h = elim (Bool-cases (same_bytes k key)) [
    | inl same ↦ rw (same, h, same_bytes→≡ k key same, h) refl
    | inr apart ↦ ground (arith, apart, h, lookup-insert_other key other value rest h)
  ]
