-- ===== src/LocalPv/Walk/Laws.antt =====
-- What `listLocalDevices` finds.
use neco_containers.Base.{
  ℕ, ◌+◌, ◌≡◌, refl, Bool, true, List, [], ◌∷◌, ◌++◌, String, Result, ok, err, arith, ◌==◌, ◌&&◌,
  is_ok, proceed, if◌then◌else◌,
}
use neco_containers.LocalPv.Volume.{Device}
use neco_containers.LocalPv.Walk.{
  Visit, WalkApi, Found, walk, list_local_devices, get_capacity_bytes, add_device, visit_info,
}

-- How often a path stands in a list of paths, or of devices.
abbrev pub count : String → List String → ℕ
count p [] = 0
count p (q ∷ qs) = (if q == p then 1 else 0) + count p qs

abbrev pub paths : List Device → List String
paths [] = []
paths (d ∷ ds) = d.path ∷ paths ds

count-paths-append :
    (p : String) (ds : List Device) (e : Device)
    → count p (paths (ds ++ e ∷ [])) ≡ count p (paths ds) + (if e.path == p then 1 else 0)
count-paths-append p [] e = omega arith
count-paths-append p (d ∷ ds) e = omega (arith, count-paths-append p ds e)

module _ {W E : Type 0} (api : WalkApi W E) (base : String → String) (matches : String → Bool) where
  -- The paths of the files that the filter lets through.
  abbrev pub picked : List (Visit E) → List String
  picked [] = []
  picked (v ∷ vs) =
      let rest = picked vs in
      elim v.info [
        | err e ↦ rest
        | ok is_dir ↦ if is_dir then rest else if matches (base v.path) then v.path ∷ rest else rest
      ]

  abbrev readable : List (Visit E) → Bool
  readable [] = true
  readable (v ∷ vs) = is_ok v.info && readable vs

  -- Each picked path is found as often as Walk reports it, as a device or as an error device.
  abbrev FoundBy : String → List (Visit E) → Found → Result E Found → Type 0
  FoundBy p vs before (err e) = Unit
  FoundBy p vs before (ok after) =
      count p (paths after.devs) + count p (paths after.err_devs)
      ≡ count p (paths before.devs) + count p (paths before.err_devs) + count p (picked vs)

  abbrev Adds : String → String → Found → Result E Found → Type 0
  Adds p path before (err e) = ⊥
  Adds p path before (ok after) =
      count p (paths after.devs) + count p (paths after.err_devs)
      ≡ count p (paths before.devs) + count p (paths before.err_devs) + (if path == p then 1 else 0)

  add_device-Adds :
      (p path : String) (found : Found) (r : Result E ℕ × W)
      → Adds p path found (add_device api base matches path found r).0
  unfolding add_device
  add_device-Adds p path found (ok n, w) =
      omega (arith, count-paths-append p found.devs (record { path = path; capacity_bytes = n }))
  add_device-Adds p path found (err e, w) =
      omega
        (arith, count-paths-append p found.err_devs (record { path = path; capacity_bytes = 0 }))

  visit_info-FoundBy :
      (p : String) (v : Visit E) (found : Found) (w : W)
      → FoundBy p (v ∷ []) found (visit_info api base matches v.path v.info found w).0
  unfolding visit_info
  visit_info-FoundBy p v found w =
      ground (arith, add_device-Adds p v.path found (get_capacity_bytes api base matches v.path w))

  proceed-FoundBy :
      (p : String) (v : Visit E) (vs : List (Visit E)) (found : Found) (r : Result E Found × W)
      → ((f : Found) (w : W) → FoundBy p vs f (walk api base matches vs f w).0)
      → FoundBy p (v ∷ []) found r.0
      → FoundBy p (v ∷ vs) found (proceed r (walk api base matches vs)).0
  proceed-FoundBy p v vs found (ok f, w) ih h = ground (arith, ih f w)
  proceed-FoundBy p v vs found (err e, w) ih h = tt

  walk-FoundBy :
      (p : String) (vs : List (Visit E)) (found : Found) (w : W)
      → FoundBy p vs found (walk api base matches vs found w).0
  unfolding walk
  walk-FoundBy p [] found w = omega arith
  walk-FoundBy p (v ∷ vs) found w =
      proceed-FoundBy p v vs found (visit_info api base matches v.path v.info found w)
        (walk-FoundBy p vs) (visit_info-FoundBy p v found w)

  -- When `listLocalDevices` succeeds, each path that is a file with a base name that the filter
  -- matches is among the devices and the error devices together as often as Walk reports it, and
  -- no other path is.
  pub count-list_local_devices :
      (p dir : String) (w : W) {found : Found}
      → (list_local_devices api base matches dir w).0 ≡ ok found
      → count p (paths found.devs) + count p (paths found.err_devs)
        ≡ count p (picked (api.visits dir w))
  unfolding list_local_devices
  count-list_local_devices p dir w h =
      ground (arith, walk-FoundBy p (api.visits dir w) (record { devs = []; err_devs = [] }) w)

  is_ok-visit_info :
      (path : String) (info : Result E Bool) (found : Found) (w : W)
      → is_ok (visit_info api base matches path info found w).0 ≡ is_ok info
  unfolding visit_info
  is_ok-visit_info path info found w = ground arith

  is_ok-proceed :
      (r : Result E Found × W) (b : Bool) (vs : List (Visit E))
      → ((f : Found) (w : W) → is_ok (walk api base matches vs f w).0 ≡ readable vs)
      → is_ok r.0 ≡ b
      → is_ok (proceed r (walk api base matches vs)).0 ≡ b && readable vs
  is_ok-proceed (ok f, w) b vs ih h = ground (arith, ih f w)
  is_ok-proceed (err e, w) b vs ih h = ground arith

  is_ok-walk :
      (vs : List (Visit E)) (found : Found) (w : W)
      → is_ok (walk api base matches vs found w).0 ≡ readable vs
  unfolding walk
  is_ok-walk [] found w = refl
  is_ok-walk (v ∷ vs) found w =
      is_ok-proceed (visit_info api base matches v.path v.info found w) (is_ok v.info) vs
        (is_ok-walk vs) (is_ok-visit_info v.path v.info found w)

  -- `listLocalDevices` fails exactly when Walk reports an error for some path; a device with no
  -- readable capacity never makes it fail.
  is_ok-list_local_devices :
      (dir : String) (w : W)
      → is_ok (list_local_devices api base matches dir w).0 ≡ readable (api.visits dir w)
  unfolding list_local_devices
  is_ok-list_local_devices dir w =
      is_ok-walk (api.visits dir w) (record { devs = []; err_devs = [] }) w
