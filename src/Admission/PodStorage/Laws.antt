-- ===== src/Admission/PodStorage/Laws.antt =====
-- What the mutator of ephemeral storage does to each list of resources.
use neco_containers.Base.{
  ◌≡◌, refl, ap₂, Bool, List, [], ◌∷◌, map, Option, none, some, String, ◌==◌, Map, lookup,
  lookup-insert, insert-insert, All₂, All₂-map, Result, ok, on_result, eq_iff, arith, if◌then◌else◌,
}
use neco_containers.Admission.Response.{patched, errored, internal_server_error}
use neco_containers.Admission.PodStorage.{
  Container, Pod, Defaults, ephemeral_storage, set_storage, patch_container, patch_pod, handle,
}

module _ {Quantity : Type 0} (d : Defaults Quantity) (permissive : Bool) where
  abbrev kept : Quantity → Option Quantity → Quantity
  kept q none = q
  kept q (some old) = if permissive then old else q

  -- Of the resource `r`: ephemeral storage is there afterwards, with the default unless the hook is
  -- permissive and there was a value, and every other resource is as before.
  lookup-set_storage :
      (q : Quantity) (m : Map Quantity) (r : String)
      → lookup r (set_storage d permissive q m) ≡ (
          if ephemeral_storage == r then some (kept q (lookup ephemeral_storage m)) else lookup r m)
  unfolding set_storage
  lookup-set_storage q m r =
      ground (arith, lookup-insert ephemeral_storage r q m, eq_iff ephemeral_storage r)

  -- What one list of resources becomes.
  abbrev pub HasStorage : Quantity → Map Quantity → Map Quantity → Type 0
  HasStorage q old new =
      (r : String)
      → lookup r new ≡ (
          if ephemeral_storage == r
          then some (kept q (lookup ephemeral_storage old))
          else lookup r old)

  -- What one container becomes.
  abbrev pub IsPatchOf : Container Quantity → Container Quantity → Type 0
  IsPatchOf co co' =
      (co'.image ≡ co.image)
      × HasStorage d.request co.requests co'.requests
      × HasStorage d.limit co.limits co'.limits

  patch_container-IsPatchOf :
      (co : Container Quantity) → IsPatchOf co (patch_container d permissive co)
  unfolding patch_container
  patch_container-IsPatchOf co =
      (refl, lookup-set_storage d.request co.requests, lookup-set_storage d.limit co.limits)

  -- A decoded pod is answered with the patch to a pod, or with an internal error where that cannot
  -- be marshalled. In it each container, also each init container, requests and is limited in
  -- ephemeral storage: by the default, or by the value that it had, where it had one and the hook is
  -- permissive. Its image and its other resources are as they were.
  pub handle_patches :
      {E M : Type 0} (marshal : Pod Quantity → Result E M) (po : Pod Quantity)
      → (po' : Pod Quantity) × All₂ IsPatchOf po.containers po'.containers
        × All₂ IsPatchOf po.init_containers po'.init_containers
        × (handle d permissive marshal (ok po)
            ≡ on_result (marshal po') (λ m. patched m) (λ e. errored internal_server_error))
  unfolding handle patch_pod
  handle_patches marshal po = (
    patch_pod d permissive po,
    All₂-map IsPatchOf (patch_container d permissive) patch_container-IsPatchOf po.containers,
    All₂-map IsPatchOf (patch_container d permissive) patch_container-IsPatchOf po.init_containers,
    refl,
  )

  set_storage_idem :
      (q : Quantity) (m : Map Quantity)
      → set_storage d permissive q (set_storage d permissive q m) ≡ set_storage d permissive q m
  unfolding set_storage
  set_storage_idem q m = ground (
    arith,
    lookup-insert ephemeral_storage ephemeral_storage q m,
    insert-insert ephemeral_storage q m,
  )

  patch_container_idem :
      (co : Container Quantity)
      → patch_container d permissive (patch_container d permissive co)
        ≡ patch_container d permissive co
  unfolding patch_container
  patch_container_idem co =
      ground (arith, set_storage_idem d.request co.requests, set_storage_idem d.limit co.limits)

  patch_all_idem :
      (cos : List (Container Quantity))
      → map (patch_container d permissive) (map (patch_container d permissive) cos)
        ≡ map (patch_container d permissive) cos
  patch_all_idem [] = refl
  patch_all_idem (co ∷ cos) = ap₂ ◌∷◌ (patch_container_idem co) (patch_all_idem cos)

  -- The hook, called again on a pod that it has patched, changes nothing.
  patch_pod_idem :
      (po : Pod Quantity)
      → patch_pod d permissive (patch_pod d permissive po) ≡ patch_pod d permissive po
  unfolding patch_pod
  patch_pod_idem po =
      ground (arith, patch_all_idem po.containers, patch_all_idem po.init_containers)
