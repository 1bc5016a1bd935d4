-- ===== src/Admission/Replicas/Laws.antt =====
-- The two ways to change a replica count are held to one rule.
use neco_containers.Base.{
  ◌≡◌, ◌↔◌, ◌⊎◌, true, some, String, eq_iff, Option-cases, inl, inr, Result, ok, lookup, arith,
}
use neco_containers.Admission.Response.{is_allowed}
use neco_containers.Admission.Replicas.{
  Deployment, Scale, annotation_for_force_replica_count, is_force_replica_count_target_deployment,
  handle_deployment, handle_scale,
}

-- The annotation that forces the count is there, with value 0.
abbrev pub IsForced : Deployment → Type 0
IsForced d = lookup annotation_for_force_replica_count d.annotations ≡ some "0"

target_iff : (d : Deployment) → (is_force_replica_count_target_deployment d ≡ true) ↔ IsForced d
unfolding is_force_replica_count_target_deployment
target_iff d = elim (Option-cases (lookup annotation_for_force_replica_count d.annotations)) [
  | inl e ↦ ((λ h. cc h), (λ h. cc h))
  | inr (v, e) ↦ ((λ h. ground (arith, eq_iff v "0")), (λ h. ground (arith, eq_iff v "0")))
]

-- A decoded deployment is admitted exactly when its count is not forced or is given as 0; and a
-- decoded scale request for that deployment, which the API server returns, is admitted exactly when
-- its count is not forced or the scale is 0.
pub IsForced-replica_count :
    {E : Type 0} (get : String → String → Result E Deployment) (d : Deployment) (s : Scale)
    → get s.namespace s.name ≡ ok d
    → ((is_allowed (handle_deployment {E = E} (ok d)) ≡ true)
        ↔ ((¬ IsForced d) ⊎ (d.replicas ≡ some 0)))
      × ((is_allowed (handle_scale get (ok s)) ≡ true) ↔ ((¬ IsForced d) ⊎ (s.replicas ≡ 0)))
unfolding handle_deployment handle_scale
IsForced-replica_count get d s found =
    let t = target_iff d in
    (
      ((λ h. ground (arith, t)), (λ h. ground (arith, t))),
      ((λ h. ground (arith, t)), (λ h. ground (arith, t))),
    )
