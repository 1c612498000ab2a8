-- ===== src/Simulator/Stateful.antt =====
-- A method with `&mut self` that may fail: its answer, and the state it leaves in either case.
use dryer.Base.{◌≡◌, refl, Result, ok, err}

abbrev pub Stateful : Type 0 → Type 0 → Type 0 → Type 0
Stateful S E A = S → Result E A × S

module _ {S E : Type 0} where
  -- An answer that needs no state, and `?` on such an answer.
  abbrev pub pure : {A : Type 0} → Result E A → Stateful S E A
  pure answer = λ s. (answer, s)

  abbrev pub and_then : {A B : Type 0} → Result E A → (A → Stateful S E B) → S → Result E B × S
  and_then (ok a) next s = next a s
  and_then (err e) next s = (err e, s)

  infixl 5 ◌>>=◌
  abbrev pub ◌>>=◌ :
      {A B : Type 0} (m : Stateful S E A) (next : A → Stateful S E B) → Stateful S E B
  m >>= next = λ s. and_then ((m s).0) next ((m s).1)

  -- What a method does to the state, whether it fails or not, and of its answer when it does not.
  abbrev pub Ends : {A : Type 0} (Keeps : S → Type 0) (P : A → Type 0) → Result E A × S → Type 0
  Ends Keeps P (ok a, s) = Keeps s × P a
  Ends Keeps P (err e, s) = Keeps s

  pub >>=-Ends :
      {A B : Type 0} (Keeps : S → Type 0) (P : A → Type 0) (Q : B → Type 0) (m : Stateful S E A)
      (next : A → Stateful S E B) (s : S)
      → Ends Keeps P (m s)
      → ((a : A) (s' : S) → Keeps s' → P a → Ends Keeps Q (next a s'))
      → Ends Keeps Q ((m >>= next) s)
  >>=-Ends Keeps P Q m next s first rest = by_answer ((m s).0) ((m s).1) first
    where
      by_answer :
          (answer : Result E _) (s' : S)
          → Ends Keeps P (answer, s')
          → Ends Keeps Q (and_then answer next s')
      by_answer (ok a) s' (kept, p) = rest a s' kept p
      by_answer (err e) s' kept = kept

  pub pure-Ends :
      {A : Type 0} (Keeps : S → Type 0) (answer : Result E A) (s : S)
      → Keeps s
      → Ends Keeps (λ a. answer ≡ ok a) (pure answer s)
  pure-Ends Keeps (ok a) s kept = (kept, refl)
  pure-Ends Keeps (err e) s kept = kept

  pub Ends-map :
      {A : Type 0} (Keeps : S → Type 0) (P Q : A → Type 0) (out : Result E A × S)
      → ((a : A) → P a → Q a)
      → Ends Keeps P out
      → Ends Keeps Q out
  Ends-map Keeps P Q (ok a, s) f (kept, p) = (kept, f a p)
  Ends-map Keeps P Q (err e, s) f kept = kept

  -- A last step that changes what the steps before it keep.
  pub >>=-Ends_last :
      {A B : Type 0} (Keeps : S → Type 0) (P : A → Type 0) (Good : Result E B × S → Type 0)
      (m : Stateful S E A) (next : A → Stateful S E B) (s : S)
      → Ends Keeps P (m s)
      → ((e : E) (s' : S) → Keeps s' → Good (err e, s'))
      → ((a : A) (s' : S) → Keeps s' → P a → Good (next a s'))
      → Good ((m >>= next) s)
  >>=-Ends_last Keeps P Good m next s first fails rest = by_answer ((m s).0) ((m s).1) first
    where
      by_answer :
          (answer : Result E _) (s' : S)
          → Ends Keeps P (answer, s')
          → Good (and_then answer next s')
      by_answer (ok a) s' (kept, p) = rest a s' kept p
      by_answer (err e) s' kept = fails e s' kept
