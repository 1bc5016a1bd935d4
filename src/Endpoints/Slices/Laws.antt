-- ===== src/Endpoints/Slices/Laws.antt =====
-- The chunks, and the slices that are left.
use neco_containers.Base.{
  ℕ, zero, suc, ◌+◌, ◌≤◌, ◌≡◌, refl, ap, ◌∙◌, List, [], ◌∷◌, ◌++◌, length, length-append, All,
  arith,
}
use neco_containers.Endpoints.Slices.{chunk_from, chunk}

module _ {ℓ} {A : Type ℓ} where
  abbrev pub concat : List (List A) → List A
  concat [] = []
  concat (xs ∷ xss) = xs ++ concat xss

  append_assoc : (xs ys zs : List A) → (xs ++ ys) ++ zs ≡ xs ++ (ys ++ zs)
  append_assoc [] ys zs = refl
  append_assoc (x ∷ xs) ys zs = ap (λ l. x ∷ l) (append_assoc xs ys zs)

  concat-chunk_from :
      (size room : ℕ) (current xs : List A)
      → concat (chunk_from size room current xs) ≡ current ++ xs
  unfolding chunk_from
  concat-chunk_from size room current [] = refl
  concat-chunk_from size zero current (x ∷ xs) =
      ap (λ l. current ++ l) (concat-chunk_from size size (x ∷ []) xs)
  concat-chunk_from size (suc room) current (x ∷ xs) =
      concat-chunk_from size room (current ++ x ∷ []) xs ∙ append_assoc current (x ∷ []) xs

  abbrev pub IsChunk : ℕ → List A → Type 0
  IsChunk size xs = (1 ≤ length xs) × (length xs ≤ suc size)

  chunk_from-IsChunk :
      (size room : ℕ) (current xs : List A)
      → 1 ≤ length current
      → length current + room ≤ suc size
      → All (IsChunk size) (chunk_from size room current xs)
  unfolding chunk_from
  chunk_from-IsChunk size room current [] a b = ((a, omega arith), tt)
  chunk_from-IsChunk size zero current (x ∷ xs) a b =
      ((a, omega arith), chunk_from-IsChunk size size (x ∷ []) xs (omega arith) (omega arith))
  chunk_from-IsChunk size (suc room) current (x ∷ xs) a b =
      let l = length-append current (x ∷ []) in
      chunk_from-IsChunk size room (current ++ x ∷ []) xs (omega arith) (omega arith)

  -- The chunks are the list, cut into parts that are not empty and have at most `size + 1` elements.
  chunk-parts :
      (size : ℕ) (xs : List A) → (concat (chunk size xs) ≡ xs) × All (IsChunk size) (chunk size xs)
  unfolding chunk
  chunk-parts size [] = (refl, tt)
  chunk-parts size (x ∷ xs) = (
    concat-chunk_from size size (x ∷ []) xs,
    chunk_from-IsChunk size size (x ∷ []) xs (omega arith) (omega arith),
  )
