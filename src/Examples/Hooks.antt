-- ===== src/Examples/Hooks.antt =====
-- The webhooks on deletion, replicas and pods, at concrete requests.
use neco_containers.Base.{
  ℕ, ◌≡◌, refl, ◌↔◌, ◌⊎◌, Bool, true, List, [], ◌∷◌, some, String, ◌==◌, Result, ok, err, Map, All,
  All₂, ℤ, pos, if◌then◌else◌,
}
use neco_containers.Admission.Response.{is_allowed, allowed, patched}
use neco_containers.Admission.Deletion.{
  Object, ProtectedResource, Cluster, annotation_for_delete, ann_prevent_key,
  handle_namespace_deletion,
}
use neco_containers.Admission.Deletion.Laws.{IsClear, handle_namespace_deletion_iff}
use neco_containers.Admission.Replicas.{Deployment, Scale, handle_deployment, handle_scale}
use neco_containers.Admission.Replicas.Laws.{IsForced, IsForced-replica_count}
use neco_containers.Admission.PodImages
use neco_containers.Admission.PodStorage
use neco_containers.Admission.PodStorage.Laws.{IsPatchOf, handle_patches}
use neco_containers.Admission.PodCpu
use neco_containers.Admission.PodCpu.Laws.{IsExempt, IsReducedPod, handle_reduces}

abbrev project : Object
project = record {
  kind = "Namespace";
  name = "app";
  namespace = "team";
  annotations = (annotation_for_delete, "app") ∷ [];
}

abbrev labels_of : String → Result ℕ (Map String)
labels_of ns = if ns == "team" then ok (("development", "true") ∷ []) else err 1

abbrev claim : Object
claim = record {
  kind = "PersistentVolumeClaim";
  name = "data";
  namespace = "team";
  annotations = (ann_prevent_key, "delete") ∷ [];
}

abbrev cluster : Cluster ℕ String
cluster = record {
  kind_for = λ r. if r.resource == "claims" then ok "Claim" else err 7;
  is_no_match = λ e. true;
  list = λ kind ns. ok (claim ∷ []);
}

abbrev resources : List ProtectedResource
resources =
    record { group = ""; version = "v1"; resource = "claims" }
    ∷ record { group = "a"; version = "v1"; resource = "as" }
    ∷ []

handle_namespace_deletion_iff_example :
    (is_allowed (handle_namespace_deletion cluster resources (ok "team")) ≡ true)
    ↔ All (IsClear cluster "team") resources
handle_namespace_deletion_iff_example = handle_namespace_deletion_iff cluster resources "team"

abbrev stopped : Deployment
stopped = record {
  namespace = "team";
  name = "web";
  annotations = ("admission.cybozu.com/force-replica-count", "0") ∷ [];
  replicas = some 3;
}

abbrev scale : Scale
scale = record { namespace = "team"; name = "web"; replicas = 2 }

abbrev get_deployment : String → String → Result ℕ Deployment
get_deployment ns name = ok stopped

IsForced-replica_count_example :
    ((is_allowed (handle_deployment {E = ℕ} (ok stopped)) ≡ true)
      ↔ ((¬ IsForced stopped) ⊎ (stopped.replicas ≡ some 0)))
    × ((is_allowed (handle_scale get_deployment (ok scale)) ≡ true)
        ↔ ((¬ IsForced stopped) ⊎ (scale.replicas ≡ 0)))
IsForced-replica_count_example = IsForced-replica_count get_deployment stopped scale refl

abbrev web_pod : PodImages.Pod
web_pod = record {
  containers = "ghcr.io/cybozu/web" ∷ [];
  init_containers = "other/init" ∷ [];
  ephemeral_containers = [];
}

abbrev prefix_test : String → String → Bool
prefix_test image prefix = image == "ghcr.io/cybozu/web"

abbrev warning_text : String → String
warning_text image = image

abbrev defaults : PodStorage.Defaults ℕ
defaults = record { request = 10; limit = 1024 }

abbrev storage_container : PodStorage.Container ℕ
storage_container = record {
  image = "web";
  requests = ("cpu", 2) ∷ [];
  limits = ("ephemeral-storage", 5) ∷ [];
}

abbrev storage_pod : PodStorage.Pod ℕ
storage_pod = record {
  containers = storage_container ∷ [];
  init_containers = storage_container ∷ [];
}

abbrev encode_storage : PodStorage.Pod ℕ → Result ℕ (PodStorage.Pod ℕ)
encode_storage po = ok po

handle_patches_example :
    (po' : PodStorage.Pod ℕ) × All₂
      (IsPatchOf defaults true)
      (storage_container ∷ [])
      po'.containers
    × All₂ (IsPatchOf defaults true) (storage_container ∷ []) po'.init_containers
    × (PodStorage.handle defaults true encode_storage (ok storage_pod) ≡ patched po')
handle_patches_example = handle_patches defaults true encode_storage storage_pod

abbrev millis : PodCpu.Quantities ℤ
millis = record { milli_value = λ q. q; new_milli = λ v. v }

abbrev cpu_container : PodCpu.Container ℤ
cpu_container = record { image = "web"; requests = ("memory", pos 64) ∷ ("cpu", pos 7) ∷ [] }

abbrev cpu_pod : PodCpu.Pod ℤ
cpu_pod = record { owners = []; labels = []; init_containers = cpu_container ∷ []; containers = [] }

abbrev encode : PodCpu.Pod ℤ → Result ℕ (PodCpu.Pod ℤ)
encode po = ok po

handle_reduces_example :
    (IsExempt millis true cpu_pod × (PodCpu.handle millis encode true (ok cpu_pod) ≡ allowed))
    ⊎ ((¬ IsExempt millis true cpu_pod)
        × (po' : PodCpu.Pod ℤ) × IsReducedPod millis cpu_pod po'
        × (PodCpu.handle millis encode true (ok cpu_pod) ≡ patched po'))
handle_reduces_example = handle_reduces millis true cpu_pod encode (λ v. refl)
