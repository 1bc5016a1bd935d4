-- ===== src/LocalPv/Deleter.antt =====
-- local-pv-provisioner/controllers/deleter.go.
pub mod Wrap
pub mod Content
pub mod Labels
pub mod Laws
use neco_containers.Base.{
  ℕ, zero, suc, ◌+◌, ◌-◌, ◌*◌, ◌%◌, ◌^◌, Bool, List, [], ◌∷◌, String, Result, ok, err, Exec, pure,
  ◌>>=◌, ◌>>◌, leb, if◌then◌else◌,
}

-- Two's complement 64-bit arithmetic; a value is its bit pattern.
abbrev pub i64 : ℕ → ℕ
i64 n = n % 2 ^ 64

-- `a <= b` on signed 64-bit values.
abbrev pub leb_i64 : ℕ → ℕ → Bool
leb_i64 a b = leb ((a + 2 ^ 63) % 2 ^ 64) ((b + 2 ^ 63) % 2 ^ 64)

-- The methods of an open file that the code calls. `W` is the machine, `E` the type of errors.
pub record FileOps (W E : Type 0) : Type 0 where
  pub open_file : String → Exec W E (Unit {0})
  pub seek_end : Exec W E ℕ
  pub seek_start : ℕ → Exec W E (Unit {0})
  pub write : ℕ → Exec W E (Unit {0})
  pub sync : Exec W E (Unit {0})

pub record FillDeleter : Type 0 where
  pub fill_block_size : ℕ
  pub fill_count : ℕ

abbrev pub bdev_label_positions : List ℕ
bdev_label_positions =
    0
    ∷ (1 * 1024 * 1024 * 1024)
    ∷ (10 * 1024 * 1024 * 1024)
    ∷ (100 * 1024 * 1024 * 1024)
    ∷ (1000 * 1024 * 1024 * 1024)
    ∷ []

module _ {W E : Type 0} (f : FileOps W E) where
  -- The inner loop, with the rounds that are left and the counter `i`.
  unfoldable pub fill : ℕ → ℕ → ℕ → ℕ → ℕ → Exec W E (Unit {0})
  fill zero i position file_size block = pure tt
  fill (suc rounds) i position file_size block =
      let from = i64 (position + i64 (i * block)) in
      let to = i64 (position + i64 ((i + 1) * block)) in
      let rest = fill rounds (i + 1) position file_size block in
      if leb_i64 file_size from then pure tt else do
        f.write (if leb_i64 file_size to then i64 (file_size + 2 ^ 64 - from) else block)
        rest

  -- The outer loop, over the positions that are left.
  unfoldable pub fill_labels : FillDeleter → ℕ → List ℕ → Exec W E (Unit {0})
  fill_labels d file_size [] = pure tt
  fill_labels d file_size (position ∷ positions) =
      let rest = fill_labels d file_size positions in
      if leb_i64 file_size position
      then pure tt
      else do f.seek_start position; fill d.fill_count 0 position file_size d.fill_block_size; rest

  unfoldable pub delete : FillDeleter → String → Exec W E (Unit {0})
  delete d path = do
    f.open_file path
    file_size ← f.seek_end
    fill_labels d file_size bdev_label_positions
    f.sync
