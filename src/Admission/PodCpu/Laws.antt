-- ===== src/Admission/PodCpu/Laws.antt =====
-- How far CPU requests are reduced, and for which pods.
use mathlib.Core.List.{Memᴰ}
use neco_containers.Base.{
  ℕ, zero, suc, ◌+◌, ◌*◌, ◌/◌, ◌≤◌, ℤ, pos, negsuc, negate, half, eqb_ℤ, ◌≡◌, ◌≢◌, refl, sym, ◌∙◌,
  ◌↔◌, subst, ◌⊎◌, inl, inr, Bool, true, false, Option, none, some, String, ◌==◌, eq_iff, Result,
  ok, List, [], ◌∷◌, lookup, Map, lookup-insert, get_text_iff, any, All, All₂, All₂-map, on_result,
  arith, Option-cases, Bool-cases, any_eq_iff, if◌then◌else◌,
}
use neco_containers.Admission.Response.{allowed, patched, errored, internal_server_error}
use neco_containers.Admission.PodCpu.{
  Quantities, reduce_found, has_cpu, Container, Pod, cpu, prevent_label, reduced_request,
  reduce_container, reduce_pod, is_patched, handle,
}

-- The law of the quantities: a new quantity has the value that it was made from.
abbrev pub KeepsMilli : {Quantity : Type 0} → Quantities Quantity → Type 0
KeepsMilli qs = (v : ℤ) → qs.milli_value (qs.new_milli v) ≡ v

-- The second amount is one milli CPU if the first is, and else half of it, rounded towards zero.
abbrev pub IsHalfOf : ℤ → ℤ → Type 0
IsHalfOf (pos n) v =
    (m : ℕ) × (v ≡ pos m) × (((n ≡ 1) × (m ≡ 1)) ⊎ ((n ≢ 1) × (2 * m ≤ n) × (n ≤ 2 * m + 1)))
IsHalfOf (negsuc n) v = (m : ℕ) × (v ≡ negate m) × (2 * m ≤ suc n) × (suc n ≤ 2 * m + 1)

module _ {Quantity : Type 0} (qs : Quantities Quantity) where
  -- The CPU request, which is there in both or in neither.
  abbrev pub IsHalved : Option Quantity → Option Quantity → Type 0
  IsHalved none none = Unit
  IsHalved none (some q) = ⊥
  IsHalved (some q) none = ⊥
  IsHalved (some q) (some q') = IsHalfOf (qs.milli_value q) (qs.milli_value q')

  -- What one container becomes: of its requests only that of CPU differs.
  abbrev pub IsReductionOf : Container Quantity → Container Quantity → Type 0
  IsReductionOf co co' =
      (co'.image ≡ co.image)
      × IsHalved (lookup cpu co.requests) (lookup cpu co'.requests)
      × ((r : String) → (r ≡ cpu) ⊎ (lookup r co'.requests ≡ lookup r co.requests))

  abbrev pub IsReducedPod : Pod Quantity → Pod Quantity → Type 0
  IsReducedPod po po' =
      (po'.owners ≡ po.owners)
      × (po'.labels ≡ po.labels)
      × All₂ IsReductionOf po.init_containers po'.init_containers
      × All₂ IsReductionOf po.containers po'.containers

  abbrev pub HasNoCpu : List (Container Quantity) → Type 0
  HasNoCpu cos = All (λ (co : Container Quantity). lookup cpu co.requests ≡ none) cos

  -- The reasons to leave a pod alone.
  abbrev pub IsExempt : Bool → Pod Quantity → Type 0
  IsExempt enabled po =
      (enabled ≡ false)
      ⊎ Memᴰ "DaemonSet" po.owners
      ⊎ (lookup prevent_label po.labels ≡ some "true")
      ⊎ (HasNoCpu po.init_containers × HasNoCpu po.containers)

  halve-IsHalfOf : (v : ℤ) → IsHalfOf v (if eqb_ℤ v (pos 1) then pos 1 else half v)
  halve-IsHalfOf (pos zero) = (0, refl, inr (omega arith, omega arith, omega arith))
  halve-IsHalfOf (pos (suc zero)) = (1, refl, inl (refl, refl))
  halve-IsHalfOf (pos (suc (suc n))) =
      (suc (suc n) / 2, ground arith, inr (omega arith, omega arith, omega arith))
  halve-IsHalfOf (negsuc n) = (suc n / 2, ground arith, omega arith, omega arith)

  module _ (law : KeepsMilli qs) where
    reduced_request-IsHalfOf :
        (q : Quantity) → IsHalfOf (qs.milli_value q) (qs.milli_value (reduced_request qs q))
    unfolding reduced_request
    reduced_request-IsHalfOf q =
        subst (λ v. IsHalfOf (qs.milli_value q) v)
          (ground (arith, law (pos 1), law (half (qs.milli_value q))))
          (halve-IsHalfOf (qs.milli_value q))

    found-IsReductionOf :
        (requests : Map Quantity) (o : Option Quantity)
        → lookup cpu requests ≡ o
        → IsHalved o (lookup cpu (reduce_found qs requests o))
          × ((r : String) → (r ≡ cpu) ⊎ (lookup r (reduce_found qs requests o) ≡ lookup r requests))
    unfolding reduce_found
    found-IsReductionOf requests none e = (rw e tt, λ r. inr refl)
    found-IsReductionOf requests (some q) e =
        let new = reduced_request qs q in
        (
          rw (lookup-insert cpu cpu new requests) (reduced_request-IsHalfOf q),
          λ r. elim (Bool-cases (cpu == r)) [
            | inl i ↦ inl (sym ((eq_iff cpu r).0 i))
            | inr i ↦ inr (rw (lookup-insert cpu r new requests, i) refl)
          ],
        )

    reduce_container-IsReductionOf :
        (co : Container Quantity) → IsReductionOf co (reduce_container qs co)
    unfolding reduce_container
    reduce_container-IsReductionOf co =
        let (cpu_halved, others_kept) =
          found-IsReductionOf co.requests (lookup cpu co.requests) refl in
        (refl, cpu_halved, others_kept)

    reduce_pod-IsReducedPod : (po : Pod Quantity) → IsReducedPod po (reduce_pod qs po)
    unfolding reduce_pod
    reduce_pod-IsReducedPod po = (
      refl,
      refl,
      All₂-map IsReductionOf (reduce_container qs) reduce_container-IsReductionOf
          po.init_containers,
      All₂-map IsReductionOf (reduce_container qs) reduce_container-IsReductionOf po.containers,
    )

  any-has_cpu : (cos : List (Container Quantity)) → (any (has_cpu qs) cos ≡ false) ↔ HasNoCpu cos
  unfolding has_cpu
  any-has_cpu [] = ((λ h. tt), (λ h. refl))
  any-has_cpu (co ∷ cos) =
      let ih = any-has_cpu cos in
      elim (Option-cases (lookup cpu co.requests)) [
        | inl e ↦ ((λ h. (e, ih.0 (rw e at h))), (λ h. rw e (ih.1 h.1)))
        | inr (q, e) ↦
            ((λ h. absurd (some_test (rw e at h))), (λ h. absurd (some_ne_none (sym e ∙ h.0))))
      ]
    where
      some_test : true ≡ false → ⊥
      some_test h = cc

      some_ne_none : {q : Quantity} → some q ≡ none → ⊥
      some_ne_none h = cc

  is_patched_iff :
      (po : Pod Quantity)
      → (is_patched qs po ≡ false) ↔ (HasNoCpu po.init_containers × HasNoCpu po.containers)
  unfolding is_patched
  is_patched_iff po = ground (arith, any-has_cpu po.init_containers, any-has_cpu po.containers)

  module _ (enabled : Bool) (po : Pod Quantity) where
    abbrev owned : Bool
    owned = any (λ kind. kind == "DaemonSet") po.owners

    -- The reasons in the words of the code.
    abbrev IsExemptBy : Type 0
    IsExemptBy =
        (enabled ≡ false)
        ⊎ (owned ≡ true)
        ⊎ (lookup prevent_label po.labels ≡ some "true")
        ⊎ (is_patched qs po ≡ false)

    IsExempt→IsExemptBy : IsExempt enabled po → IsExemptBy
    IsExempt→IsExemptBy h = elim h [
      | inl a ↦ inl a
      | inr (inl b) ↦ inr (inl ((any_eq_iff "DaemonSet" po.owners).1 b))
      | inr (inr (inl c)) ↦ inr (inr (inl c))
      | inr (inr (inr e)) ↦ inr (inr (inr ((is_patched_iff po).1 e)))
    ]

    IsExemptBy→IsExempt : IsExemptBy → IsExempt enabled po
    IsExemptBy→IsExempt h = elim h [
      | inl a ↦ inl a
      | inr (inl b) ↦ inr (inl ((any_eq_iff "DaemonSet" po.owners).0 b))
      | inr (inr (inl c)) ↦ inr (inr (inl c))
      | inr (inr (inr e)) ↦ inr (inr (inr ((is_patched_iff po).0 e)))
    ]

    handle_cases :
        {E M : Type 0} (marshal : Pod Quantity → Result E M)
        → (IsExemptBy × (handle qs marshal enabled (ok po) ≡ allowed))
          ⊎ ((¬ IsExemptBy)
              × (handle qs marshal enabled (ok po)
                  ≡ on_result
                      (marshal (reduce_pod qs po))
                      (λ m. patched m)
                      (λ e. errored internal_server_error)))
    unfolding handle
    handle_cases marshal = ground (arith, get_text_iff prevent_label "true" po.labels refl)

    -- A decoded pod is left alone if the hook is disabled, the pod belongs to a DaemonSet, it has
    -- the label that prevents the reduction, or no container and no init container of it requests
    -- CPU. Any other is answered with the patch to a pod, or with an internal error where that
    -- cannot be marshalled, in which the CPU request of each container, also of each init
    -- container, is half of what it was, rounded towards zero, one milli CPU staying as it is, and
    -- nothing else differs, provided that a new quantity has the value that it was made from.
    pub handle_reduces :
        {E M : Type 0} (marshal : Pod Quantity → Result E M)
        → KeepsMilli qs
        → (IsExempt enabled po × (handle qs marshal enabled (ok po) ≡ allowed))
          ⊎ ((¬ IsExempt enabled po)
              × (po' : Pod Quantity) × IsReducedPod po po'
              × (handle qs marshal enabled (ok po)
                  ≡ on_result (marshal po') (λ m. patched m) (λ e. errored internal_server_error)))
    handle_reduces marshal law = elim (handle_cases marshal) [
      | inl (x, a) ↦ inl (IsExemptBy→IsExempt x, a)
      | inr (x, p) ↦
          inr
            ((λ y. x (IsExempt→IsExemptBy y)), reduce_pod qs po, reduce_pod-IsReducedPod law po, p)
    ]
