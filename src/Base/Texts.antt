-- ===== src/Base/Texts.antt =====
-- The `strings` and `slices` functions on texts that the components share.
use Prim.Native.String.{String, compare}
use mathlib.Core.Bool.{Bool}
use mathlib.Core.List.{List, [], ◌∷◌}
use text.Mathlib.Text.{is_le, find?}
use neco_containers.Base.Tests.{if◌then◌else◌}
use neco_containers.Base.Maps.{Map, is_some}

-- strings.Contains
unfoldable pub has_text : String → String → Bool
has_text s part = is_some (find? s part)

insert_sorted : String → List String → List String
insert_sorted s [] = s ∷ []
insert_sorted s (t ∷ ts) =
    let rest = insert_sorted s ts in if is_le (compare s t) then s ∷ t ∷ ts else t ∷ rest

-- slices.Sorted
unfoldable pub sorted : List String → List String
unfolding insert_sorted
sorted [] = []
sorted (s ∷ ss) = insert_sorted s (sorted ss)

-- maps.Keys
unfoldable pub keys {ℓ} : {V : Type ℓ} → Map V → List String
keys [] = []
keys ((k, v) ∷ m) = k ∷ keys m
