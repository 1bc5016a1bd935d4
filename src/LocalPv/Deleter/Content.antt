-- ===== src/LocalPv/Deleter/Content.antt =====
-- What the fill loop of `FillDeleter.Delete` does to the bytes of the device.
use neco_containers.Base.{
  ℕ, zero, suc, ◌+◌, ◌-◌, ◌*◌, ◌≤◌, ◌<◌, ◌≡◌, refl, ◌⊎◌, String, arith, Result, ok, err, leb,
  if◌then◌else◌,
}
use neco_containers.LocalPv.Deleter.{FileOps}
use neco_containers.LocalPv.Deleter.Wrap.{fill_from}

-- The view of the machine that the documented behaviour of an open device file speaks of: the
-- size of the device, the offset of the file, and each byte.
pub record View (W : Type 0) : Type 0 where
  pub size : W → ℕ
  pub offset : W → ℕ
  pub byte_at : W → ℕ → ℕ

pub record SameBytes {W : Type 0} (v : View W) (w w' : W) : Type 0 where
  pub size : v.size w' ≡ v.size w
  pub bytes : (x : ℕ) → v.byte_at w' x ≡ v.byte_at w x

-- A call that succeeds reports the number.
abbrev pub Reports : {E : Type 0} → Result E ℕ → ℕ → Type 0
Reports (ok n) s = n ≡ s
Reports (err e) s = Unit

-- The documented behaviour of the calls: opening, seeking and syncing change no byte; a write
-- inside the device touches only the bytes under it, which are zero when it succeeds, since the
-- buffer is zero.
pub record IsFile {W E : Type 0} (f : FileOps W E) (v : View W) : Type 0 where
  pub open_same : (path : String) (w : W) → SameBytes v w (f.open_file path w).1
  pub end_same : (w : W) → SameBytes v w (f.seek_end w).1
  pub end_size : (w : W) → Reports (f.seek_end w).0 (v.size w)
  pub start_same : (p : ℕ) (w : W) → SameBytes v w (f.seek_start p w).1
  pub start_offset :
      (p : ℕ) (w : W) → (f.seek_start p w).0 ≡ ok tt → v.offset (f.seek_start p w).1 ≡ p
  pub write_size : (n : ℕ) (w : W) → v.offset w + n ≤ v.size w → v.size (f.write n w).1 ≡ v.size w
  pub write_offset :
      (n : ℕ) (w : W) → (f.write n w).0 ≡ ok tt → v.offset (f.write n w).1 ≡ v.offset w + n
  pub write_below :
      (n : ℕ) (w : W) (x : ℕ) → x < v.offset w → v.byte_at (f.write n w).1 x ≡ v.byte_at w x
  pub write_above :
      (n : ℕ) (w : W) (x : ℕ) → v.offset w + n ≤ x → v.byte_at (f.write n w).1 x ≡ v.byte_at w x
  pub write_zero :
      (n : ℕ) (w : W) (x : ℕ)
      → (f.write n w).0 ≡ ok tt
      → v.offset w ≤ x
      → x < v.offset w + n
      → v.byte_at (f.write n w).1 x ≡ 0
  pub sync_same : (w : W) → SameBytes v w (f.sync w).1

module _ {W E : Type 0} (f : FileOps W E) (v : View W) (law : IsFile f v) where
  -- The write of one round, which stays inside the device.
  abbrev chunk : ℕ → ℕ → ℕ → ℕ
  chunk from s b = if leb s (from + b) then s - from else b

  pub size-fill_from :
      (rounds from block s : ℕ) (w : W)
      → v.size w ≡ s
      → (from < s → v.offset w ≡ from)
      → v.size (fill_from f rounds from s block w).1 ≡ s
  unfolding fill_from
  size-fill_from zero from b s w z o = z
  size-fill_from (suc r) from b s w z o =
      let n = chunk from s b in
      ground (
        arith,
        law.write_size n w,
        law.write_offset n w,
        size-fill_from r (from + b) b s (f.write n w).1,
      )

  -- Bytes before and behind the window of the loop stay as they were, also when a write fails.
  pub Outside-fill_from :
      (rounds from block s : ℕ) (w : W) (x : ℕ)
      → v.size w ≡ s
      → (from < s → v.offset w ≡ from)
      → (x < from) ⊎ (from + rounds * block ≤ x)
      → v.byte_at (fill_from f rounds from s block w).1 x ≡ v.byte_at w x
  unfolding fill_from
  Outside-fill_from zero from b s w x z o h = refl
  Outside-fill_from (suc r) from b s w x z o h =
      let n = chunk from s b in
      ground (
        arith,
        law.write_size n w,
        law.write_offset n w,
        law.write_below n w x,
        law.write_above n w x,
        Outside-fill_from r (from + b) b s (f.write n w).1 x,
      )

  -- A loop that succeeds leaves zeros in its window, up to the end of the device.
  pub zero-fill_from :
      (rounds from block s : ℕ) (w : W) (x : ℕ)
      → v.size w ≡ s
      → (from < s → v.offset w ≡ from)
      → (fill_from f rounds from s block w).0 ≡ ok tt
      → from ≤ x
      → x < from + rounds * block
      → x < s
      → v.byte_at (fill_from f rounds from s block w).1 x ≡ 0
  unfolding fill_from
  zero-fill_from zero from b s w x z o d l u t = absurd (omega arith)
  zero-fill_from (suc r) from b s w x z o d l u t =
      let n = chunk from s b in
      ground (
        arith,
        law.write_size n w,
        law.write_offset n w,
        law.write_zero n w x,
        Outside-fill_from r (from + b) b s (f.write n w).1 x,
        zero-fill_from r (from + b) b s (f.write n w).1 x,
      )
