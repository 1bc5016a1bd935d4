-- ===== src/LocalPv/Deleter/Wrap.antt =====
-- The loop of `FillDeleter.Delete` in plain numbers: no 64-bit operation of it wraps around.
use neco_containers.Base.{
  ℕ, zero, suc, ◌+◌, ◌-◌, ◌*◌, ◌^◌, ◌<◌, ◌≡◌, refl, inl, inr, arith, Exec, pure, ◌>>◌, leb,
  if◌then◌else◌, Bool-cases, leb→gt,
}
use neco_containers.LocalPv.Deleter.{FileOps, i64, leb_i64, fill}

-- a signed comparison of values below 2^63 is the plain one
pub leb_i64-eq-leb : (a b : ℕ) → a < 2 ^ 63 → b < 2 ^ 63 → leb_i64 a b ≡ leb a b
leb_i64-eq-leb a b h k = ground arith

module _ {W E : Type 0} (f : FileOps W E) where
  -- The loop from the byte `from`.
  unfoldable pub fill_from : ℕ → ℕ → ℕ → ℕ → Exec W E (Unit {0})
  fill_from zero from file_size block = pure tt
  fill_from (suc rounds) from file_size block =
      let rest = fill_from rounds (from + block) file_size block in
      if leb file_size from
      then pure tt
      else (do f.write (if leb file_size (from + block) then file_size - from else block); rest)

  -- The bounds under which the loop runs make each of its four 64-bit expressions exact.
  module _ (i p s b : ℕ) (h : p + i * b < 2 ^ 63) (k : s + b < 2 ^ 63) where
    from_exact : i64 (p + i64 (i * b)) ≡ p + i * b
    from_exact = omega arith

    module _ (more : p + i * b < s) where
      to_exact : i64 (p + i64 ((i + 1) * b)) ≡ p + i * b + b
      to_exact = omega arith

      length_exact : i64 (s + 2 ^ 64 - (p + i * b)) ≡ s - (p + i * b)
      length_exact = omega arith

      next_exact : p + (i + 1) * b ≡ p + i * b + b
      next_exact = omega arith

  -- If the window and the device with a block more end below 2^63, the inner loop, with its 64-bit
  -- counters of blocks, is the loop in plain numbers from the byte where its next block starts.
  pub fill-eq-fill_from :
      (rounds i position file_size block : ℕ)
      → position + i * block < 2 ^ 63
      → file_size + block < 2 ^ 63
      → fill f rounds i position file_size block
        ≡ fill_from rounds (position + i * block) file_size block
  unfolding fill fill_from
  fill-eq-fill_from zero i p s b h k = refl
  fill-eq-fill_from (suc r) i p s b h k = elim (Bool-cases (leb s (p + i * b))) [
    | inl done ↦ rw (from_exact i p s b h k, leb_i64-eq-leb s (p + i * b) (omega arith) h, done)
    | inr more ↦
        let m = leb→gt s (p + i * b) more in
        rw (
          from_exact i p s b h k,
          leb_i64-eq-leb s (p + i * b) (omega arith) h,
          more,
          to_exact i p s b h k m,
          leb_i64-eq-leb s (p + i * b + b) (omega arith) (omega arith),
          length_exact i p s b h k m,
          fill-eq-fill_from r (i + 1) p s b (omega arith) k,
          next_exact i p s b h k m,
        )
  ]

  pub fill_zero-eq-fill_from :
      (rounds position file_size block : ℕ) (w : W)
      → position < 2 ^ 63
      → file_size + block < 2 ^ 63
      → fill f rounds 0 position file_size block w ≡ fill_from rounds position file_size block w
  fill_zero-eq-fill_from r p s b w h k =
      let e : p + 0 * b ≡ p = omega arith in rw (fill-eq-fill_from r 0 p s b (omega arith) k, e)
