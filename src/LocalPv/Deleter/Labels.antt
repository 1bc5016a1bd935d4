-- ===== src/LocalPv/Deleter/Labels.antt =====
-- What the loop over the label positions of `FillDeleter.Delete` does to the bytes of the device.
use mathlib.Core.List.{Memᴰ}
use neco_containers.Base.{ℕ, ◌+◌, ◌*◌, ◌^◌, ◌≤◌, ◌<◌, ◌≡◌, refl, ◌⊎◌, List, [], ◌∷◌, arith, ok, All}
use neco_containers.LocalPv.Deleter.{FileOps, FillDeleter, fill_labels}
use neco_containers.LocalPv.Deleter.Wrap.{fill_from, fill_zero-eq-fill_from, leb_i64-eq-leb}
use neco_containers.LocalPv.Deleter.Content.{
  View, IsFile, size-fill_from, Outside-fill_from, zero-fill_from,
}

-- The byte lies in no window of the label positions.
abbrev pub Outside : FillDeleter → ℕ → List ℕ → Type 0
Outside d x = All (λ p. (x < p) ⊎ (p + d.fill_count * d.fill_block_size ≤ x))

abbrev IsAscending : List ℕ → Type 0
IsAscending [] = Unit
IsAscending (p ∷ ps) = All (λ q. p ≤ q) ps × IsAscending ps

All-mem : {n x : ℕ} (ps : List ℕ) → All (λ q. n ≤ q) ps → Memᴰ x ps → n ≤ x
All-mem [] a m = elim m [ ]
All-mem (p ∷ ps) a (Memᴰ.head e) = omega arith
All-mem (p ∷ ps) a (Memᴰ.tail m) = All-mem ps a.1 m

module _ {W E : Type 0} (f : FileOps W E) (v : View W) (law : IsFile f v) (d : FillDeleter) (s : ℕ)
    (fits : s + d.fill_block_size < 2 ^ 63) where
  -- The machine after the seek and the loop of one label.
  abbrev sought : ℕ → W → W
  sought p w = (f.seek_start p w).1

  abbrev filled : ℕ → W → W
  filled p w = (fill_from f d.fill_count p s d.fill_block_size (sought p w)).1

  pub size-fill_labels :
      (ps : List ℕ) (w : W)
      → All (λ p. p < 2 ^ 63) ps
      → v.size w ≡ s
      → v.size (fill_labels f d s ps w).1 ≡ s
  unfolding fill_labels
  size-fill_labels [] w b z = z
  size-fill_labels (p ∷ ps) w b z = ground (
    arith,
    leb_i64-eq-leb s p,
    fill_zero-eq-fill_from f d.fill_count p s d.fill_block_size (sought p w),
    (law.start_same p w).size,
    law.start_offset p w,
    size-fill_from f v law d.fill_count p d.fill_block_size s (sought p w),
    size-fill_labels ps (filled p w),
  )

  pub Outside-fill_labels :
      (ps : List ℕ) (w : W) (x : ℕ)
      → All (λ p. p < 2 ^ 63) ps
      → v.size w ≡ s
      → Outside d x ps
      → v.byte_at (fill_labels f d s ps w).1 x ≡ v.byte_at w x
  unfolding fill_labels
  Outside-fill_labels [] w x b z o = refl
  Outside-fill_labels (p ∷ ps) w x b z o = ground (
    arith,
    leb_i64-eq-leb s p,
    fill_zero-eq-fill_from f d.fill_count p s d.fill_block_size (sought p w),
    (law.start_same p w).size,
    (law.start_same p w).bytes x,
    law.start_offset p w,
    size-fill_from f v law d.fill_count p d.fill_block_size s (sought p w),
    Outside-fill_from f v law d.fill_count p d.fill_block_size s (sought p w) x,
    Outside-fill_labels ps (filled p w) x,
  )

  -- A byte that is zero stays zero.
  keep_zero :
      (ps : List ℕ) (w : W) (x : ℕ)
      → All (λ p. p < 2 ^ 63) ps
      → v.size w ≡ s
      → (fill_labels f d s ps w).0 ≡ ok tt
      → x < s
      → v.byte_at w x ≡ 0
      → v.byte_at (fill_labels f d s ps w).1 x ≡ 0
  unfolding fill_labels
  keep_zero [] w x b z done t e = e
  keep_zero (p ∷ ps) w x b z done t e = ground (
    arith,
    leb_i64-eq-leb s p,
    fill_zero-eq-fill_from f d.fill_count p s d.fill_block_size (sought p w),
    (law.start_same p w).size,
    (law.start_same p w).bytes x,
    law.start_offset p w,
    size-fill_from f v law d.fill_count p d.fill_block_size s (sought p w),
    Outside-fill_from f v law d.fill_count p d.fill_block_size s (sought p w) x,
    zero-fill_from f v law d.fill_count p d.fill_block_size s (sought p w) x,
    keep_zero ps (filled p w) x,
  )

  pub zero-fill_labels :
      (ps : List ℕ) (w : W) {p : ℕ} (x : ℕ)
      → All (λ q. q < 2 ^ 63) ps
      → IsAscending ps
      → Memᴰ p ps
      → v.size w ≡ s
      → (fill_labels f d s ps w).0 ≡ ok tt
      → p ≤ x
      → x < p + d.fill_count * d.fill_block_size
      → x < s
      → v.byte_at (fill_labels f d s ps w).1 x ≡ 0
  unfolding fill_labels
  zero-fill_labels [] w x b a m z done l u t = elim m [ ]
  zero-fill_labels (p ∷ ps) w x b a (Memᴰ.head e) z done l u t = ground (
    arith,
    leb_i64-eq-leb s p,
    fill_zero-eq-fill_from f d.fill_count p s d.fill_block_size (sought p w),
    (law.start_same p w).size,
    law.start_offset p w,
    size-fill_from f v law d.fill_count p d.fill_block_size s (sought p w),
    zero-fill_from f v law d.fill_count p d.fill_block_size s (sought p w) x,
    keep_zero ps (filled p w) x,
  )
  zero-fill_labels (p ∷ ps) w {p = q} x b a (Memᴰ.tail m) z done l u t = ground (
    arith,
    leb_i64-eq-leb s p,
    fill_zero-eq-fill_from f d.fill_count p s d.fill_block_size (sought p w),
    (law.start_same p w).size,
    law.start_offset p w,
    All-mem ps a.0 m,
    size-fill_from f v law d.fill_count p d.fill_block_size s (sought p w),
    zero-fill_labels ps (filled p w) {p = q} x b.1 a.1 m,
  )
