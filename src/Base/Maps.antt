-- ===== src/Base/Maps.antt =====
-- Go's `map[string]V` as an association list. A read takes the first entry of a key; a write
-- replaces it in place, or adds it at the end.
use Prim.Native.String.{String}
use mathlib.Core.Path.{◌≡◌, refl}
use mathlib.Core.Logic.{◌↔◌}
use mathlib.Core.Bool.{Bool, true, false}
use mathlib.Core.Option.{Option, none, some}
use mathlib.Core.List.{List, [], ◌∷◌}
use native.Mathlib.Omega.{arith}
use text.Mathlib.Text.{◌==◌}
use text.Mathlib.TextEquality.{eq_iff}
use neco_containers.Base.Tests.{if◌then◌else◌}

abbrev pub Map {ℓ} : Type ℓ → Type ℓ
Map V = List (String × V)

module _ {ℓ} {V : Type ℓ} where
  -- v, ok := m[key]
  unfoldable pub lookup : String → Map V → Option V
  lookup key [] = none
  lookup key ((at, value) ∷ rest) = if at == key then some value else lookup key rest

  -- delete(m, key)
  unfoldable pub delete : String → Map V → Map V
  delete key [] = []
  delete key ((at, value) ∷ rest) =
      let kept = delete key rest in if at == key then kept else (at, value) ∷ kept

  -- m[key] = new
  unfoldable pub insert : String → V → Map V → Map V
  insert key new [] = (key, new) ∷ []
  insert key new ((at, value) ∷ rest) =
      if at == key then (key, new) ∷ rest else (at, value) ∷ insert key new rest

  pub lookup-delete :
      (gone key : String) (m : Map V)
      → lookup key (delete gone m) ≡ (if gone == key then none else lookup key m)
  unfolding lookup delete
  lookup-delete gone key [] = ground arith
  lookup-delete gone key ((at, value) ∷ rest) =
      ground (arith, lookup-delete gone key rest, eq_iff gone key, eq_iff at gone, eq_iff at key)

  pub lookup-insert :
      (at_key key : String) (new : V) (m : Map V)
      → lookup key (insert at_key new m) ≡ (if at_key == key then some new else lookup key m)
  unfolding lookup insert
  lookup-insert at_key key new [] = refl
  lookup-insert at_key key new ((at, value) ∷ rest) =
      ground (
        arith,
        lookup-insert at_key key new rest,
        eq_iff at_key key,
        eq_iff at at_key,
        eq_iff at key,
      )

  -- Writing a value again changes nothing.
  pub insert-insert : (k : String) (v : V) (m : Map V) → insert k v (insert k v m) ≡ insert k v m
  unfolding insert
  insert-insert k v [] = ground (arith, eq_iff k k)
  insert-insert k v ((j, w) ∷ m) = ground (arith, eq_iff j k, eq_iff k k, insert-insert k v m)

pub ruleset map_laws = (lookup-insert, lookup-delete)

abbrev pub or_empty : Option String → String
or_empty none = ""
or_empty (some s) = s

-- m[k] without the test, for a map of texts: the zero value of a missing key is the empty text.
unfoldable pub get_text : String → Map String → String
get_text k m = or_empty (lookup k m)

abbrev pub is_some {ℓ} : {A : Type ℓ} → Option A → Bool
is_some none = false
is_some (some a) = true

-- A value that is not empty is read exactly when the key is there with it.
pub get_text_iff :
    (k v : String) (m : Map String)
    → (v == "") ≡ false
    → ((get_text k m == v) ≡ true) ↔ (lookup k m ≡ some v)
unfolding get_text
get_text_iff k v m h = (
  (λ e. ground (arith, eq_iff (or_empty (lookup k m)) v, eq_iff v "")),
  (λ e. ground (arith, eq_iff (or_empty (lookup k m)) v)),
)
