-- ===== src/Admission/HttpProxy/Mutator.antt =====
-- admission/hooks/mutate_httpproxy.go.
use neco_containers.Base.{
  ℕ, List, [], ◌∷◌, Option, none, some, String, ◌==◌, Result, ok, err, lookup, is_some, on_result,
  and_then, if◌then◌else◌,
}
use neco_containers.Admission.Response.{
  Response, patched, errored, bad_request, internal_server_error,
}
use neco_containers.Admission.HttpProxy.Validator.{
  View, kubernetes_ingress_class, contour_ingress_class, ip_policy,
}
use neco_containers.Admission.HttpProxy.Policies.{
  IpPolicy, Policy, get_http_proxy_policy, uniq_ip_policies,
}

-- The accesses to an unstructured object: the view of the validator, SetNestedField of
-- .spec.ingressClassName and of .spec.routes, NestedSlice of .spec.routes and of ipAllowPolicy of
-- a route, SetNestedSlice of the latter, and the two conversions of a policy through JSON. A route
-- is a JSON object, so the type assertion on it holds. `iteration` is the order in which Go
-- iterates over the map of the policies.
pub record Objects (Obj Route Json E : Type 0) : Type 0 where
  pub view : Obj → View E
  pub set_class_field : Obj → String → Result E Obj
  pub routes : Obj → Result E (Option (List Route))
  pub set_routes : Obj → List Route → Result E Obj
  pub route_policies : Route → Result E (List Json)
  pub set_route_policies : Route → List Json → Result E Route
  pub decode_policy : Json → Result E IpPolicy
  pub encode_policy : IpPolicy → Result E Json
  pub iteration : List IpPolicy → List IpPolicy

module _ {Obj Route Json E : Type 0} (o : Objects Obj Route Json E) where
  -- A response that is not allowed is given by its status.
  unfoldable pub mutate_class_field : String → Obj → Result ℕ Obj
  mutate_class_field default_class hp =
      let ann = (o.view hp).annotations in
      if default_class == ""
      then ok hp
      else if is_some (lookup kubernetes_ingress_class ann)
      then ok hp
      else if is_some (lookup contour_ingress_class ann)
      then ok hp
      else on_result (o.view hp).class_field
          (λ field.
            if is_some field
            then ok hp
            else on_result (o.set_class_field hp default_class) (λ hp'. ok hp')
                (λ e. err internal_server_error))
          (λ e. err bad_request)

  unfoldable pub decode_policies : List Json → Result E (List IpPolicy)
  decode_policies [] = ok []
  decode_policies (v ∷ vs) =
      let rest = decode_policies vs in
      and_then (o.decode_policy v) (λ p. and_then rest (λ ps. ok (p ∷ ps)))

  unfoldable pub encode_policies : List IpPolicy → Result E (List Json)
  encode_policies [] = ok []
  encode_policies (p ∷ ps) =
      let rest = encode_policies ps in
      and_then (o.encode_policy p) (λ v. and_then rest (λ vs. ok (v ∷ vs)))

  unfoldable pub patch_route : List IpPolicy → Route → Result E Route
  patch_route new route = and_then (o.route_policies route) λ org.
      and_then (decode_policies org) λ old.
        and_then (encode_policies (uniq_ip_policies o.iteration old new))
          λ uniq. o.set_route_policies route uniq

  unfoldable pub patch_routes : List IpPolicy → List Route → Result E (List Route)
  patch_routes new [] = ok []
  patch_routes new (r ∷ rs) =
      let rest = patch_routes new rs in
      and_then (patch_route new r) (λ r'. and_then rest (λ rs'. ok (r' ∷ rs')))

  unfoldable pub set_policy_field : Obj → List IpPolicy → Result E Obj
  set_policy_field hp new = and_then (o.routes hp) (λ found. elim found [
    | none ↦ ok hp
    | some rs ↦ and_then (patch_routes new rs) (λ rs'. o.set_routes hp rs')
  ])

  unfoldable pub apply_policy : Obj → Option Policy → Result ℕ Obj
  apply_policy hp none = err bad_request
  apply_policy hp (some policy) =
      on_result (set_policy_field hp policy.ip_allow_policy) (λ hp'. ok hp')
        (λ e. err internal_server_error)

  unfoldable pub mutate_policy : List Policy → Obj → Result ℕ Obj
  unfolding apply_policy
  mutate_policy policies hp = elim (lookup ip_policy (o.view hp).annotations) [
    | none ↦ ok hp
    | some key ↦ apply_policy hp (get_http_proxy_policy policies key)
  ]

  -- `contourHTTPProxyMutator.Handle`, of the decoded object; `marshal` is json.Marshal.
  unfoldable pub mutate :
      {M : Type 0}
      → (Obj → Result E M)
      → String
      → List Policy
      → Result E Obj
      → Response (Unit {0}) M
  mutate marshal default_class policies request =
      on_result request
        (λ hp.
          on_result (mutate_class_field default_class hp)
            (λ hp1.
              on_result (mutate_policy policies hp1)
                (λ hp2.
                  on_result (marshal hp2) (λ m. patched m) (λ e. errored internal_server_error))
                (λ code. errored code))
            (λ code. errored code))
        (λ e. errored bad_request)
