-- ===== src/Admission/PodStorage.antt =====
-- The ephemeral storage of containers, admission/hooks/mutate_pod.go. A nil list of resources is
-- the empty one, since the code makes it before it writes.
pub mod Laws
use neco_containers.Base.{
  ◌≡◌, Bool, not, ◌||◌, List, [], ◌∷◌, map, String, ◌==◌, Result, on_result, Map, lookup, insert,
  is_some, if◌then◌else◌,
}
use neco_containers.Admission.Response.{
  Response, patched, errored, bad_request, internal_server_error,
}

-- A container, with the quantities of its requests and limits by the names of resources.
pub record Container (Quantity : Type 0) : Type 0 where
  pub image : String
  pub requests : Map Quantity
  pub limits : Map Quantity

pub record Pod (Quantity : Type 0) : Type 0 where
  pub containers : List (Container Quantity)
  pub init_containers : List (Container Quantity)

-- corev1.ResourceEphemeralStorage
abbrev pub ephemeral_storage : String
ephemeral_storage = "ephemeral-storage"

-- ephemeralStorageRequest and ephemeralStorageLimit, the parsed 10Mi and 1Gi.
pub record Defaults (Quantity : Type 0) : Type 0 where
  pub request : Quantity
  pub limit : Quantity

module _ {Quantity : Type 0} (d : Defaults Quantity) (permissive : Bool) where
  unfoldable pub set_storage : Quantity → Map Quantity → Map Quantity
  set_storage q resources =
      if not (is_some (lookup ephemeral_storage resources)) || not permissive
      then insert ephemeral_storage q resources
      else resources

  -- The body of both loops.
  unfoldable pub patch_container : Container Quantity → Container Quantity
  patch_container co = record co {
    requests = set_storage d.request co.requests;
    limits = set_storage d.limit co.limits;
  }

  unfoldable pub patch_pod : Pod Quantity → Pod Quantity
  patch_pod po = record {
    containers = map patch_container po.containers;
    init_containers = map patch_container po.init_containers;
  }

  -- `podMutator.Handle`; `marshal` is json.Marshal.
  unfoldable pub handle :
      {E M : Type 0} → (Pod Quantity → Result E M) → Result E (Pod Quantity) → Response (Unit {0}) M
  handle marshal request =
      on_result request
        (λ po.
          on_result (marshal (patch_pod po)) (λ m. patched m) (λ e. errored internal_server_error))
        (λ e. errored bad_request)
