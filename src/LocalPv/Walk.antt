-- ===== src/LocalPv/Walk.antt =====
-- The walk over the device directory, local-pv-provisioner/controllers/local_device.go.
pub mod Laws
use neco_containers.Base.{
  ℕ, Bool, List, [], ◌∷◌, ◌++◌, String, Result, ok, err, Exec, pure, ◌>>=◌, ◌>>◌, if◌then◌else◌,
}
use neco_containers.LocalPv.Volume.{Device}

-- A call that filepath.Walk makes of its function: a path, and its error or whether it is a
-- directory.
pub record Visit (E : Type 0) : Type 0 where
  pub path : String
  pub info : Result E Bool

-- Walk gives the calls that it would make, in its order, if the function never fails; the other two
-- are fs.Open and Seek to the end of the open file.
pub record WalkApi (W E : Type 0) : Type 0 where
  pub visits : String → W → List (Visit E)
  pub open_file : String → Exec W E (Unit {0})
  pub seek_end : Exec W E ℕ

pub record Found : Type 0 where
  pub devs : List Device
  pub err_devs : List Device

module _ {W E : Type 0} (api : WalkApi W E) (base : String → String) (matches : String → Bool) where
  unfoldable pub get_capacity_bytes : String → Exec W E ℕ
  get_capacity_bytes path = do api.open_file path; api.seek_end

  pub add_device : String → Found → Result E ℕ × W → Result E Found × W
  add_device path found (ok n, w) = (
    ok (record found { devs = found.devs ++ record { path = path; capacity_bytes = n } ∷ [] }),
    w,
  )
  add_device path found (err e, w) = (
    ok (record found {
      err_devs = found.err_devs ++ record { path = path; capacity_bytes = 0 } ∷ [];
    }),
    w,
  )

  -- The function that Walk calls; `base` is filepath.Base, and `matches` is
  -- MatchString of the filter.
  unfoldable pub visit_info : String → Result E Bool → Found → Exec W E Found
  unfolding add_device get_capacity_bytes
  visit_info path (err e) found w = (err e, w)
  visit_info path (ok is_dir) found w =
      if is_dir
      then (ok found, w)
      else if matches (base path)
      then add_device path found (get_capacity_bytes path w)
      else (ok found, w)

  -- Walk stops at the first error that the function returns, and returns it.
  unfoldable pub walk : List (Visit E) → Found → Exec W E Found
  unfolding visit_info
  walk [] found = pure found
  walk (v ∷ vs) found = do found' ← visit_info v.path v.info found; walk vs found'

  unfoldable pub list_local_devices : String → Exec W E Found
  unfolding walk
  list_local_devices dir w = walk (api.visits dir w) (record { devs = []; err_devs = [] }) w
