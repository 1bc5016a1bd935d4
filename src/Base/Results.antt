-- ===== src/Base/Results.antt =====
-- A value or an error, and actions on a state that may fail: what was done before an error stays.
use mathlib.Core.Path.{◌≡◌, refl, ap}
use mathlib.Core.Logic.{◌⊎◌, inl, inr}
use mathlib.Core.Bool.{Bool, true, false}

pub data Result {ℓ} (E A : Type ℓ) : Type ℓ where
  ok : A → Result E A
  err : E → Result E A

abbrev pub is_ok {ℓ} : {E A : Type ℓ} → Result E A → Bool
is_ok (ok a) = true
is_ok (err e) = false

-- `if err != nil { … }`: how the code goes on from a result.
abbrev pub on_result {ℓ κ} : {E A : Type ℓ} {B : Type κ} → Result E A → (A → B) → (E → B) → B
on_result (ok a) f g = f a
on_result (err e) f g = g e

-- `if err != nil { return err }`
abbrev pub and_then {ℓ} : {E A B : Type ℓ} → Result E A → (A → Result E B) → Result E B
and_then (ok a) f = f a
and_then (err e) f = err e

-- A property of what comes of a result holds if it holds in both cases.
pub on_result-lift {ℓ κ μ} :
    {E A : Type ℓ} {B : Type κ} (P : B → Type μ) (r : Result E A) (f : A → B) (g : E → B)
    → ((a : A) → r ≡ ok a → P (f a))
    → ((e : E) → r ≡ err e → P (g e))
    → P (on_result r f g)
on_result-lift P (ok a) f g h k = h a refl
on_result-lift P (err e) f g h k = k e refl

pub Result-cases {ℓ} :
    {E A : Type ℓ} (r : Result E A) → ((a : A) × (r ≡ ok a)) ⊎ ((e : E) × (r ≡ err e))
Result-cases (ok a) = inl (a, refl)
Result-cases (err e) = inr (e, refl)

pub ok_or_err {ℓ} : {E A : Type ℓ} {e : E} {a : A} (r : Result E A) → r ≡ err e → r ≡ ok a → ⊥
ok_or_err r h k = cc

pub ok_inv {ℓ} : {E A : Type ℓ} {a b : A} (r : Result E A) → r ≡ ok a → r ≡ ok b → a ≡ b
ok_inv r h k = cc

abbrev pub Exec {ℓ} : Type ℓ → Type ℓ → Type ℓ → Type ℓ
Exec S E A = S → Result E A × S

module _ {ℓ} {S E A : Type ℓ} where
  abbrev pub pure : A → Exec S E A
  pure a s = (ok a, s)

  abbrev pub raise : E → Exec S E A
  raise e s = (err e, s)

module _ {ℓ} {S E A B : Type ℓ} where
  abbrev pub proceed : Result E A × S → (A → Exec S E B) → Result E B × S
  proceed (ok a, s) f = f a s
  proceed (err e, s) f = (err e, s)

  infixl 5 ◌>>=◌ ◌>>◌
  abbrev pub ◌>>=◌ : Exec S E A → (A → Exec S E B) → Exec S E B
  ◌>>=◌ m f s = proceed (m s) f

  abbrev pub ◌>>◌ : Exec S E A → Exec S E B → Exec S E B
  m >> k = m >>= λ _. k

module _ {ℓ} {S E A B : Type ℓ} where
  -- A chain that succeeds has a first part that succeeds.
  pub proceed_inv :
      (p : Result E A × S) (f : A → Exec S E B) (b : B) (s' : S)
      → proceed p f ≡ (ok b, s')
      → (a : A) × (s : S) × (p ≡ (ok a, s)) × (f a s ≡ (ok b, s'))
  proceed_inv (ok a, s) f b s' h = (a, s, refl, h)
  proceed_inv (err e, s) f b s' h = absurd (ok_or_err (err e) refl (ap (λ x. x.0) h))

pub pure_inv {ℓ} :
    {S E A : Type ℓ} (a b : A) (s t : S) → pure {E = E} a s ≡ (ok b, t) → (a ≡ b) × (s ≡ t)
pure_inv a b s t h = (ok_inv (ok a) refl (ap (λ x. x.0) h), ap (λ x. x.1) h)

pub raise_inv {ℓ} :
    {S E A : Type ℓ} {B : Type 0} (e : E) (a : A) (s t : S) → raise e s ≡ (ok a, t) → B
raise_inv e a s t h = absurd (ok_or_err (err e) refl (ap (λ x. x.0) h))
