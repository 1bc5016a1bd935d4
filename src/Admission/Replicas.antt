-- ===== src/Admission/Replicas.antt =====
-- The forced replica count: admission/hooks/validate_deployment_replica_count.go and
-- validate_deployment_replica_count_scale.go. An int32 is given by its bit pattern.
pub mod Laws
use neco_containers.Base.{
  ℕ, Bool, true, false, not, Option, none, some, String, ◌==◌, Result, ok, err, Map, lookup,
  on_result, nat_eq, if◌then◌else◌,
}
use neco_containers.Admission.Response.{
  Response, allowed, allowed_because, denied, errored, bad_request, internal_server_error,
}

pub record Deployment : Type 0 where
  pub namespace : String
  pub name : String
  pub annotations : Map String
  pub replicas : Option ℕ

pub record Scale : Type 0 where
  pub namespace : String
  pub name : String
  pub replicas : ℕ

pub data Reason : Type 0 where
  not_a_target nil_replicas replicas_must_be_0 : Reason

abbrev pub annotation_for_force_replica_count : String
annotation_for_force_replica_count = "admission.cybozu.com/force-replica-count"

-- `ok && val == "0"`
is_zero_text : Option String → Bool
is_zero_text none = false
is_zero_text (some val) = val == "0"

unfoldable pub is_force_replica_count_target_deployment : Deployment → Bool
unfolding is_zero_text
is_force_replica_count_target_deployment d =
    is_zero_text (lookup annotation_for_force_replica_count d.annotations)

check_replicas : Option ℕ → Response Reason Deployment
check_replicas none = denied nil_replicas
check_replicas (some n) = if not (nat_eq n 0) then denied replicas_must_be_0 else allowed

-- `deploymentReplicaCountValidator.Handle`, of the decoded deployment.
unfoldable pub handle_deployment : {E : Type 0} → Result E Deployment → Response Reason Deployment
unfolding check_replicas
handle_deployment request =
    on_result request
      (λ d.
        if not (is_force_replica_count_target_deployment d)
        then allowed_because not_a_target
        else check_replicas d.replicas)
      (λ e. errored bad_request)

-- `deploymentReplicaCountScaleValidator.Handle`, of the decoded scale; `get` reads a deployment.
unfoldable pub handle_scale :
    {E : Type 0}
    → (String → String → Result E Deployment)
    → Result E Scale
    → Response Reason Deployment
handle_scale get request =
    on_result request
      (λ s.
        on_result (get s.namespace s.name)
          (λ d.
            if not (is_force_replica_count_target_deployment d)
            then allowed_because not_a_target
            else if not (nat_eq s.replicas 0)
            then denied replicas_must_be_0
            else allowed)
          (λ e. errored internal_server_error))
      (λ e. errored bad_request)
