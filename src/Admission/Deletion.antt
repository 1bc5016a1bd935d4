-- ===== src/Admission/Deletion.antt =====
-- The webhooks on deletion: admission/hooks/validate_delete.go, validate_preventdelete.go and
-- validate_namespace_deletion.go.
pub mod Laws
use neco_containers.Base.{
  ◌≡◌, Bool, true, false, not, ◌&&◌, List, [], ◌∷◌, Option, none, some, String, ◌==◌, Result, ok,
  err, Map, lookup, get_text, on_result, if◌then◌else◌,
}
use neco_containers.Admission.Response.{
  Response, allowed, allowed_because, denied, errored, bad_request, internal_server_error,
}

-- The metadata of an unstructured object.
pub record Object : Type 0 where
  pub kind : String
  pub name : String
  pub namespace : String
  pub annotations : Map String

pub data Reason : Type 0 where
  accurate_service_account confirmed_annotation dev_namespace topolvm_controller : Reason
  not_confirmed : String → Reason
  is_protected : String → Reason
  resource_is_protected : String → String → String → Reason

abbrev pub annotation_for_delete : String
annotation_for_delete = "admission.cybozu.com/i-am-sure-to-delete"

abbrev pub ann_prevent_key : String
ann_prevent_key = "admission.cybozu.com/prevent"

abbrev pub ann_prevent_value_delete : String
ann_prevent_value_delete = "delete"

abbrev pub accurate_user : String
accurate_user = "system:serviceaccount:accurate:accurate-controller-manager"

abbrev pub topolvm_user : String
topolvm_user = "system:serviceaccount:topolvm-system:topolvm-controller"

abbrev pub Answer : Type 0
Answer = Response Reason Object

-- `deleteValidator.Handle`: the user, the decoded old object, and the labels of a namespace from the
-- API server.
module _ {E : Type 0} (namespace_labels : String → Result E (Map String)) where
  check_namespace : Object → Answer
  check_namespace obj =
      if obj.namespace == ""
      then denied (not_confirmed obj.name)
      else on_result (namespace_labels obj.namespace)
          (λ labels.
            if get_text "development" labels == "true"
            then allowed_because dev_namespace
            else denied (not_confirmed obj.name))
          (λ e. errored internal_server_error)

  check_confirmed : Object → Option String → Answer
  unfolding check_namespace
  check_confirmed obj none = check_namespace obj
  check_confirmed obj (some val) =
      if val == obj.name then allowed_because confirmed_annotation else check_namespace obj

  unfoldable pub handle_delete : String → Result E Object → Answer
  unfolding check_confirmed
  handle_delete user_name old_object =
      if user_name == accurate_user
      then allowed_because accurate_service_account
      else on_result old_object
          (λ obj. check_confirmed obj (lookup annotation_for_delete obj.annotations))
          (λ e. errored bad_request)

-- `preventDeleteValidator.Handle`.
unfoldable pub handle_prevent_delete : {E : Type 0} → String → Result E Object → Answer
handle_prevent_delete user_name old_object =
    on_result old_object
      (λ obj.
        if obj.kind == "PersistentVolumeClaim" && user_name == topolvm_user
        then allowed_because topolvm_controller
        else if get_text ann_prevent_key obj.annotations == ann_prevent_value_delete
        then denied (is_protected obj.name)
        else allowed)
      (λ e. errored bad_request)

-- A resource of the configuration of the namespace deletion validator.
pub record ProtectedResource : Type 0 where
  pub group : String
  pub version : String
  pub resource : String

-- KindFor of the REST mapper, with IsNoMatchError, and List in a namespace.
pub record Cluster (E Kind : Type 0) : Type 0 where
  pub kind_for : ProtectedResource → Result E Kind
  pub is_no_match : E → Bool
  pub list : Kind → String → Result E (List Object)

module _ {E Kind : Type 0} (c : Cluster E Kind) where
  -- The first object of a list that is protected.
  unfoldable pub first_protected : List Object → Option Object
  first_protected [] = none
  first_protected (obj ∷ objs) =
      let rest = first_protected objs in
      if get_text ann_prevent_key obj.annotations == ann_prevent_value_delete
      then some obj
      else rest

  -- `continue` goes on with the rest of the resources.
  check_items : ProtectedResource → String → Option Object → Answer → Answer
  check_items r ns none rest = rest
  check_items r ns (some obj) rest = denied (resource_is_protected r.resource ns obj.name)

  -- The loop of `namespaceDeletionValidator.Handle`.
  unfoldable pub check_resources : String → List ProtectedResource → Answer
  unfolding check_items
  check_resources ns [] = allowed
  check_resources ns (r ∷ rs) =
      let rest = check_resources ns rs in
      on_result (c.kind_for r)
        (λ kind.
          on_result (c.list kind ns) (λ items. check_items r ns (first_protected items) rest)
            (λ e. errored internal_server_error))
        (λ e. if c.is_no_match e then rest else errored internal_server_error)

  unfoldable pub handle_namespace_deletion : List ProtectedResource → Result E String → Answer
  handle_namespace_deletion resources old_object =
      on_result old_object (λ ns. check_resources ns resources) (λ e. errored bad_request)

-- Why the namespace deletion validator is not made; the errors keep their places alone.
pub data Invalid : Type 0 where
  nil_config : Invalid
  not_resolved : ProtectedResource → Invalid
  not_reviewed : ProtectedResource → Invalid
  no_list_permission : ProtectedResource → Invalid

-- `review` creates a SelfSubjectAccessReview for the verb list and gives its Status.Allowed.
module _ {E Kind : Type 0} (c : Cluster E Kind) (review : ProtectedResource → Result E Bool) where
  unfoldable pub validate_resources : List ProtectedResource → Result Invalid (Unit {0})
  validate_resources [] = ok tt
  validate_resources (r ∷ rs) =
      let rest = validate_resources rs in
      on_result (c.kind_for r)
        (λ kind.
          on_result (review r) (λ may. if not may then err (no_list_permission r) else rest)
            (λ e. err (not_reviewed r)))
        (λ e. if c.is_no_match e then rest else err (not_resolved r))

  -- `namespaceDeletionValidator.validate`.
  unfoldable pub validate : Option (List ProtectedResource) → Result Invalid (Unit {0})
  unfolding validate_resources
  validate none = err nil_config
  validate (some rs) = validate_resources rs
