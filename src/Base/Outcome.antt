-- ===== src/Base/Outcome.antt =====
-- Rust's `Result` with `?` as bind.
use mathlib.Core.Path.{◌≡◌, refl, ap}
use mathlib.Core.Logic.{◌⊎◌, inl, inr}
use mathlib.Core.Bool.{Bool, true, false}
use mathlib.Core.Option.{Option, none, some}

pub data Result {ℓ κ} (E : Type κ) (A : Type ℓ) : Type (ℓ ⊔ κ) where
  ok : A → Result E A
  err : E → Result E A

-- `m?`, with what follows it as a function of the value.
infixl 5 ◌>>=◌ ◌>>◌
abbrev pub ◌>>=◌ {ℓ κ μ} :
    {E : Type μ} {A : Type ℓ} {B : Type κ} (m : Result E A) (next : A → Result E B) → Result E B
(ok value) >>= next = next value
(err error) >>= next = err error

abbrev pub ◌>>◌ {ℓ μ} :
    {E : Type μ} {B : Type ℓ} (check : Result E (Unit {0})) (rest : Result E B) → Result E B
(ok _) >> rest = rest
(err error) >> rest = err error

-- `if test { return Err(e) }`
abbrev pub refuse_if {μ} : {E : Type μ} → Bool → E → Result E (Unit {0})
refuse_if true e = err e
refuse_if false e = ok tt

-- `o.ok_or(e)?`
abbrev pub ok_or {ℓ μ} : {E : Type μ} {A : Type ℓ} → Option A → E → Result E A
ok_or none e = err e
ok_or (some a) e = ok a

-- `r.map_err(f)?`
abbrev pub map_err {ℓ κ μ} :
    {E : Type μ} {F : Type κ} {A : Type ℓ} → (E → F) → Result E A → Result F A
map_err f (ok a) = ok a
map_err f (err e) = err (f e)

pub Result-cases {ℓ μ} :
    {E : Type μ} {A : Type ℓ} (r : Result E A) → ((a : A) × (r ≡ ok a)) ⊎ ((e : E) × (r ≡ err e))
Result-cases (ok a) = inl (a, refl)
Result-cases (err e) = inr (e, refl)

-- A chain that succeeds has a first step that does, and a rest that does on its value.
pub bind_ok {ℓ κ μ} :
    {E : Type μ} {A : Type ℓ} {B : Type κ} {b : B} (m : Result E A) (next : A → Result E B)
    → m >>= next ≡ ok b
    → (value : A) × (m ≡ ok value) × (next value ≡ ok b)
bind_ok (err error) next chain = cc
bind_ok (ok value) next chain = (value, refl, chain)

pub then_ok {ℓ μ} :
    {E : Type μ} {B : Type ℓ} {b : B} (check : Result E (Unit {0})) (rest : Result E B)
    → check >> rest ≡ ok b
    → (check ≡ ok tt) × (rest ≡ ok b)
then_ok (err error) rest chain = cc
then_ok (ok _) rest chain = (refl, chain)

abbrev value_or {ℓ μ} : {E : Type μ} {A : Type ℓ} → A → Result E A → A
value_or d (ok a) = a
value_or d (err e) = d

pub ok-injective {ℓ μ} :
    {E : Type μ} {A : Type ℓ} {a b : A} → ◌≡◌ {A = Result E A} (ok a) (ok b) → a ≡ b
ok-injective {a} p = ap (value_or a) p
