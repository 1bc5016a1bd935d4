-- ===== src/CepChecker/Verdict.antt =====
-- What `check` and `checkAll` find.
use neco_containers.Base.{◌≡◌, ◌↔◌, Bool, true, some, String, Result, ok, err, arith}
use neco_containers.CepChecker.{Pod, cep, pod, Texts, Api, is_target_pod, verdict}

-- How the API server answers for a pod, or for an endpoint.
abbrev pub IsGone : {E A : Type 0} → (E → Bool) → Result E A → Type 0
IsGone not_found (ok a) = ⊥
IsGone not_found (err e) = not_found e ≡ true

abbrev pub IsTarget : Bool → {E : Type 0} → Result E Pod → Type 0
IsTarget j (ok p) = is_target_pod j p ≡ true
IsTarget j (err e) = ⊥

abbrev pub IsThere : {E A : Type 0} → Result E A → Type 0
IsThere (ok a) = Unit
IsThere (err e) = ⊥

module _ {E : Type 0} (t : Texts) (api : Api E) (j : Bool) (ns name : String) where
  -- `check` reports a missing CiliumEndpoint exactly when the pod is there and is a target and the
  -- endpoint is not found, and a missing pod exactly when the pod is not found and the endpoint is
  -- there. For a pod that is no target it reports nothing.
  pub verdict_iff :
      ((verdict t api j ns name ≡ ok (some cep))
        ↔ (IsTarget j (api.get_pod ns name) × IsGone api.is_not_found (api.get_cep ns name)))
      × ((verdict t api j ns name ≡ ok (some pod))
          ↔ (IsGone api.is_not_found (api.get_pod ns name) × IsThere (api.get_cep ns name)))
  unfolding verdict
  verdict_iff =
      (((λ h. ground arith), (λ h. ground arith)), ((λ h. ground arith), (λ h. ground arith)))
