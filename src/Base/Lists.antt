-- ===== src/Base/Lists.antt =====
-- Lists measured by native numbers, and predicates over lists by recursion.
use Prim.Native.Nat.{ℕ, suc, ◌+◌}
use Prim.Native.String.{String}
use mathlib.Core.Path.{◌≡◌, sym}
use mathlib.Core.Logic.{◌↔◌, inl, inr}
use mathlib.Core.Bool.{Bool, true, false, ◌||◌}
use mathlib.Core.List.{List, [], ◌∷◌, ◌++◌, map, Memᴰ}
use native.Mathlib.Omega.{arith}
use text.Mathlib.Text.{◌==◌}
use text.Mathlib.TextEquality.{eq_iff}
use neco_containers.Base.Tests.{Bool-cases}

module _ {ℓ} {A : Type ℓ} where
  abbrev pub length : List A → ℕ
  length [] = 0
  length (x ∷ xs) = suc (length xs)

  pub length-append : (xs ys : List A) → length (xs ++ ys) ≡ length xs + length ys
  length-append [] ys = omega arith
  length-append (x ∷ xs) ys = omega (arith, length-append xs ys)

  abbrev pub any : (A → Bool) → List A → Bool
  any p [] = false
  any p (x ∷ xs) = p x || any p xs

abbrev pub All {ℓ κ} : {A : Type ℓ} → (A → Type κ) → List A → Type κ
All P [] = Unit
All P (x ∷ xs) = P x × All P xs

-- Two lists of the same length, related one by one.
abbrev pub All₂ {ℓ κ} : {A : Type ℓ} {B : Type κ} → (A → B → Type 0) → List A → List B → Type 0
All₂ R [] [] = Unit
All₂ R [] (y ∷ ys) = ⊥
All₂ R (x ∷ xs) [] = ⊥
All₂ R (x ∷ xs) (y ∷ ys) = R x y × All₂ R xs ys

pub All₂-map {ℓ κ} :
    {A : Type ℓ} {B : Type κ} (R : A → B → Type 0) (f : A → B)
    → ((x : A) → R x (f x))
    → (xs : List A) → All₂ R xs (map f xs)
All₂-map R f h [] = tt
All₂-map R f h (x ∷ xs) = (h x, All₂-map R f h xs)

-- `slices.Contains` on texts.
abbrev pub contains : List String → String → Bool
contains [] s = false
contains (x ∷ xs) s = x == s || contains xs s

any_of_mem : {k : String} (l : List String) → Memᴰ k l → any (λ x. x == k) l ≡ true
any_of_mem [] m = elim m [ ]
any_of_mem {k} (x ∷ xs) (Memᴰ.head e) = ground (arith, eq_iff x k)
any_of_mem {k} (x ∷ xs) (Memᴰ.tail m) = ground (arith, any_of_mem {k = k} xs m)

mem_of_any : {k : String} (l : List String) → any (λ x. x == k) l ≡ true → Memᴰ k l
mem_of_any [] h = cc
mem_of_any {k} (x ∷ xs) h = elim (Bool-cases (x == k)) [
  | inl e ↦ Memᴰ.head (sym ((eq_iff x k).0 e))
  | inr e ↦ Memᴰ.tail (mem_of_any xs (rw e at h))
]

pub any_eq_iff : (k : String) (l : List String) → (any (λ x. x == k) l ≡ true) ↔ Memᴰ k l
any_eq_iff k l = (mem_of_any l, any_of_mem l)
