-- ===== src/Admission/HttpProxy/Validator.antt =====
-- admission/hooks/validate_httpproxy.go.
use neco_containers.Base.{
  Bool, true, not, ◌&&◌, Option, none, some, String, ◌==◌, Result, Map, lookup, get_text, or_empty,
  on_result, if◌then◌else◌,
}
use neco_containers.Admission.Response.{Response, allowed, denied, errored, bad_request}

abbrev pub kubernetes_ingress_class : String
kubernetes_ingress_class = "kubernetes.io/ingress.class"

abbrev pub contour_ingress_class : String
contour_ingress_class = "projectcontour.io/ingress.class"

abbrev pub ip_policy : String
ip_policy = "admission.cybozu.com/ip-policy"

-- What is read of an unstructured object: its annotations, and its .spec.ingressClassName, which is
-- an error if it is not a text.
pub record View (E : Type 0) : Type 0 where
  pub annotations : Map String
  pub class_field : Result E (Option String)

pub data Reason : Type 0 where
  class_should_be_set kubernetes_class_changed contour_class_changed class_field_changed
        ip_policy_changed :
      Reason

pub data Operation : Type 0 where
  create update delete connect : Operation

abbrev pub Answer : Type 0
Answer = Response Reason (Unit {0})

unfoldable pub check_create : Map String → String → Answer
check_create ann field =
    if get_text kubernetes_ingress_class ann == ""
      && (get_text contour_ingress_class ann == "" && field == "")
    then denied class_should_be_set
    else allowed

-- The annotation may be added, and not changed or removed.
unfoldable pub ip_policy_kept : Option String → String → Bool
ip_policy_kept none new = true
ip_policy_kept (some old) new = old == new

unfoldable pub compare_update : Map String → String → Map String → String → Answer
unfolding ip_policy_kept
compare_update new_ann new_field old_ann old_field =
    if not (get_text kubernetes_ingress_class new_ann == get_text kubernetes_ingress_class old_ann)
    then denied kubernetes_class_changed
    else if not (get_text contour_ingress_class new_ann == get_text contour_ingress_class old_ann)
    then denied contour_class_changed
    else if not (new_field == old_field)
    then denied class_field_changed
    else if not (ip_policy_kept (lookup ip_policy old_ann) (get_text ip_policy new_ann))
    then denied ip_policy_changed
    else allowed

module _ {E : Type 0} where
  check_update : Map String → String → Result E (View E) → Answer
  unfolding compare_update
  check_update new_ann new_field old_object =
      on_result old_object
        (λ old.
          on_result old.class_field
            (λ field. compare_update new_ann new_field old.annotations (or_empty field))
            (λ e. errored bad_request))
        (λ e. errored bad_request)

  by_operation : Operation → Map String → String → Result E (View E) → Answer
  unfolding check_create check_update
  by_operation create new_ann new_field old_object = check_create new_ann new_field
  by_operation update new_ann new_field old_object = check_update new_ann new_field old_object
  by_operation delete new_ann new_field old_object = allowed
  by_operation connect new_ann new_field old_object = allowed

  -- `contourHTTPProxyValidator.Handle`, of the decoded object and the decoded old object.
  unfoldable pub validate : Operation → Result E (View E) → Result E (View E) → Answer
  unfolding by_operation
  validate op request old_object =
      on_result request
        (λ hp.
          on_result hp.class_field
            (λ field. by_operation op hp.annotations (or_empty field) old_object)
            (λ e. errored bad_request))
        (λ e. errored bad_request)
