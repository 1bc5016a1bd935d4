-- ===== src/LocalPv/Deleter/Laws.antt =====
-- What `FillDeleter.Delete` promises, from the documented behaviour of the device file.
use mathlib.Core.List.{Memᴰ}
use neco_containers.Base.{ℕ, ◌+◌, ◌*◌, ◌^◌, ◌≤◌, ◌<◌, ◌≡◌, String, arith, ok}
use neco_containers.LocalPv.Deleter.{
  FileOps, FillDeleter, bdev_label_positions, fill_labels, delete,
}
use neco_containers.LocalPv.Deleter.Content.{View, IsFile}
use neco_containers.LocalPv.Deleter.Labels.{
  Outside, size-fill_labels, Outside-fill_labels, zero-fill_labels,
}

module _ {W E : Type 0} (f : FileOps W E) (v : View W) (law : IsFile f v) (d : FillDeleter)
    (path : String) (w : W) (fits : v.size w + d.fill_block_size < 2 ^ 63) where
  abbrev opened : W
  opened = (f.open_file path w).1

  abbrev sized : W
  sized = (f.seek_end opened).1

  abbrev labelled : W
  labelled = (fill_labels f d (v.size w) bdev_label_positions sized).1

  -- When `Delete` returns no error, each byte of the device that lies in the window of
  -- FillCount blocks behind a label position is zero, provided that the size of the device and of
  -- a block add up to less than 2^63.
  pub delete-zero :
      {p : ℕ} (x : ℕ)
      → (delete f d path w).0 ≡ ok tt
      → Memᴰ p bdev_label_positions
      → p ≤ x
      → x < p + d.fill_count * d.fill_block_size
      → x < v.size w
      → v.byte_at (delete f d path w).1 x ≡ 0
  unfolding delete
  delete-zero {p} x done m l u t = ground (
    arith,
    (law.open_same path w).size,
    (law.end_same opened).size,
    law.end_size opened,
    (law.sync_same labelled).bytes x,
    zero-fill_labels f v law d (v.size w) fits bdev_label_positions sized {p = p} x (omega arith)
        (omega arith) m,
  )

  -- Whether `Delete` succeeds or fails, the device keeps its size and every byte outside the
  -- windows of the label positions, provided that the size of the device and of a block add up to
  -- less than 2^63.
  pub delete-Outside :
      (x : ℕ)
      → Outside d x bdev_label_positions
      → (v.byte_at (delete f d path w).1 x ≡ v.byte_at w x)
        × (v.size (delete f d path w).1 ≡ v.size w)
  unfolding delete
  delete-Outside x o = ground (
    arith,
    (law.open_same path w).size,
    (law.end_same opened).size,
    law.end_size opened,
    (law.open_same path w).bytes x,
    (law.end_same opened).bytes x,
    (law.sync_same labelled).bytes x,
    (law.sync_same labelled).size,
    size-fill_labels f v law d (v.size w) fits bdev_label_positions sized (omega arith),
    Outside-fill_labels f v law d (v.size w) fits bdev_label_positions sized x (omega arith),
  )
