-- ===== src/Admission/PodCpu.antt =====
-- The reduction of CPU requests, admission/hooks/mutate_pod_cpu_request_reduce.go. The logger is
-- left out.
pub mod Laws
use neco_containers.Base.{
  ℤ, pos, eqb_ℤ, half, Bool, true, false, not, ◌||◌, List, [], ◌∷◌, map, Option, none, some, String,
  ◌==◌, Result, on_result, Map, lookup, insert, get_text, is_some, any, if◌then◌else◌,
}
use neco_containers.Admission.Response.{
  Response, allowed, patched, errored, bad_request, internal_server_error,
}

-- resource.Quantity, with ToDec().MilliValue() and NewMilliQuantity(_, DecimalSI).
pub record Quantities (Quantity : Type 0) : Type 0 where
  pub milli_value : Quantity → ℤ
  pub new_milli : ℤ → Quantity

pub record Container (Quantity : Type 0) : Type 0 where
  pub image : String
  pub requests : Map Quantity

-- The owner references are given by their kinds.
pub record Pod (Quantity : Type 0) : Type 0 where
  pub owners : List String
  pub labels : Map String
  pub init_containers : List (Container Quantity)
  pub containers : List (Container Quantity)

-- corev1.ResourceCPU
abbrev pub cpu : String
cpu = "cpu"

abbrev pub prevent_label : String
prevent_label = "admission.cybozu.com/prevent-cpu-request-reduce"

module _ {Quantity : Type 0} (qs : Quantities Quantity) where
  unfoldable pub reduced_request : Quantity → Quantity
  reduced_request q =
      let v = qs.milli_value q in
      if eqb_ℤ v (pos 1) then qs.new_milli (pos 1) else qs.new_milli (half (qs.milli_value q))

  reduce_found : Map Quantity → Option Quantity → Map Quantity
  reduce_found requests none = requests
  reduce_found requests (some q) = insert cpu (reduced_request q) requests

  -- The body of both loops.
  unfoldable pub reduce_container : Container Quantity → Container Quantity
  unfolding reduce_found
  reduce_container co = record co { requests = reduce_found co.requests (lookup cpu co.requests) }

  unfoldable pub reduce_pod : Pod Quantity → Pod Quantity
  reduce_pod po = record po {
    init_containers = map reduce_container po.init_containers;
    containers = map reduce_container po.containers;
  }

  has_cpu : Container Quantity → Bool
  has_cpu co = is_some (lookup cpu co.requests)

  -- len(patchedValues) != 0
  unfoldable pub is_patched : Pod Quantity → Bool
  unfolding has_cpu
  is_patched po = any has_cpu po.init_containers || any has_cpu po.containers

  -- `podCPURequestReducer.Handle`; `marshal` is json.Marshal.
  unfoldable pub handle :
      {E M : Type 0}
      → (Pod Quantity → Result E M)
      → Bool
      → Result E (Pod Quantity)
      → Response (Unit {0}) M
  handle marshal enabled request =
      if not enabled
      then allowed
      else on_result request
          (λ po.
            if any (λ kind. kind == "DaemonSet") po.owners
            then allowed
            else if get_text prevent_label po.labels == "true"
            then allowed
            else if not (is_patched po)
            then allowed
            else on_result (marshal (reduce_pod po)) (λ m. patched m)
                (λ e. errored internal_server_error))
          (λ e. errored bad_request)
