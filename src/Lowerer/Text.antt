-- ===== src/Lowerer/Text.antt =====
-- crates/gcode-lowerer/src/lib.rs, `clean_line` and `parse_tokens`.
use dryer.Base.{ℕ, ◌==◌, Bool, Option, none, some, List, [], ◌∷◌, ◌++◌, if◌then◌else◌}
use dryer.Lowerer.{Numbers, to_ascii_uppercase}

-- `s[..s.find(c)?]`
unfoldable pub up_to : ℕ → List ℕ → Option (List ℕ)
up_to c [] = none
up_to c (x ∷ rest) =
    let later = up_to c rest in
    if x == c then some [] else elim later [ none ↦ none | some before ↦ some (x ∷ before) ]

module _ (is_whitespace : ℕ → Bool) where
  unfoldable pub trim_start : List ℕ → List ℕ
  trim_start [] = []
  trim_start (x ∷ rest) = let later = trim_start rest in if is_whitespace x then later else x ∷ rest

  -- Without the white space at its end: a character stays where it is none, or where one that is none
  -- comes later.
  unfoldable pub trim_end : List ℕ → List ℕ
  trim_end [] = []
  trim_end (x ∷ rest) = elim (trim_end rest) [
    | [] ↦ if is_whitespace x then [] else x ∷ []
    | y ∷ kept ↦ x ∷ y ∷ kept
  ]

  abbrev pub trim : List ℕ → List ℕ
  trim s = trim_end (trim_start s)

  unfoldable pub clean_line : List ℕ → List ℕ
  clean_line s =
      let trimmed = trim s in
      elim (up_to b';' trimmed) [
        | some before ↦ trim before
        | none ↦ elim (up_to b'(' trimmed) [ some before ↦ trim before | none ↦ trimmed ]
      ]

  abbrev pub put_word : List ℕ → List (List ℕ) → List (List ℕ)
  put_word [] words = words
  put_word (x ∷ word) words = (x ∷ word) ∷ words

  -- `split_whitespace`, from the characters of the word that has begun.
  unfoldable pub words_from : List ℕ → List ℕ → List (List ℕ)
  words_from begun [] = put_word begun []
  words_from begun (x ∷ rest) =
      let next = words_from [] rest in
      let same = words_from (begun ++ (x ∷ [])) rest in
      if is_whitespace x then put_word begun next else same

  module _ {F : Type 0} (numbers : Numbers F) where
    unfoldable pub tokens_of : List (List ℕ) → List (ℕ × F)
    tokens_of [] = []
    tokens_of ([] ∷ words) = tokens_of words
    tokens_of ((letter ∷ rest) ∷ words) =
        let later = tokens_of words in
        elim (numbers.parse rest) [
          | none ↦ later
          | some num ↦ (to_ascii_uppercase letter, num) ∷ later
        ]

    abbrev pub parse_tokens : List ℕ → List (ℕ × F)
    parse_tokens line = tokens_of (words_from [] line)
