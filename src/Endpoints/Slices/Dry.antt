-- ===== src/Endpoints/Slices/Dry.antt =====
-- Actions that leave the cluster as it is, and those of a dry run.
use neco_containers.Base.{
  ℕ, suc, String, ◌≡◌, refl, ◌∙◌, true, Result, ok, err, Exec, pure, proceed, ◌>>=◌, ◌>>◌, List, [],
  ◌∷◌, Map,
}
use neco_containers.Endpoints.Ports.{NamedPort}
use neco_containers.Endpoints.Slices.{
  KubeApi, chunk, put_service, put_slice, apply_slices, update_target_endpoints, apply_config_map,
}

module _ {W C : Type 0} (cluster : W → C) where
  -- An action that leaves the cluster as it is, whether it succeeds or not.
  abbrev pub Leaves : {E A : Type 0} → Exec W E A → Type 0
  Leaves act = (w : W) → cluster (act w).1 ≡ cluster w

  proceed-Leaves :
      {E A B : Type 0} (p : Result E A × W) (f : A → Exec W E B)
      → ((a : A) → Leaves (f a))
      → cluster (proceed p f).1 ≡ cluster p.1
  proceed-Leaves (ok a, w) f h = h a w
  proceed-Leaves (err e, w) f h = refl

  pub bind-Leaves :
      {E A B : Type 0} (act : Exec W E A) (f : A → Exec W E B)
      → Leaves act
      → ((a : A) → Leaves (f a))
      → Leaves (act >>= f)
  bind-Leaves act f g h w = proceed-Leaves (act w) f h ∙ g w

  -- What a dry run calls of the API server leaves the cluster as it is.
  pub record IsDry {E Ip : Type 0} (api : KubeApi W E Ip) : Type 0 where
    pub reading : Leaves api.namespace
    pub printing_service : (n : String) (ps : List NamedPort) → Leaves (api.print_service n ps)
    pub printing_slice :
        (n : String) (ips : List Ip) (ps : List NamedPort) → Leaves (api.print_slice n ips ps)
    pub printing_map : (n : String) (m : Map String) → Leaves (api.print_map n m)

  module _ {E Ip : Type 0} (api : KubeApi W E Ip) (law : IsDry api) where
    apply_slices-Leaves :
        (name : String) (ports : List NamedPort) (i : ℕ) (chunks : List (List Ip))
        → Leaves (apply_slices api true name ports i chunks)
    unfolding apply_slices put_slice
    apply_slices-Leaves name ports i [] = λ w. refl
    apply_slices-Leaves name ports i (ips ∷ chunks) =
        let n = api.slice_name name i in
        let rest = apply_slices api true name ports (suc i) chunks in
        bind-Leaves (api.print_slice n ips ports >> rest) (λ ns. pure (n ∷ ns))
          (bind-Leaves (api.print_slice n ips ports) (λ _. rest) (law.printing_slice n ips ports)
            (λ _. apply_slices-Leaves name ports (suc i) chunks))
          (λ ns w. refl)

    pub update_target_endpoints-Leaves :
        (name : String) (ips : List Ip) (size : ℕ) (ports : List NamedPort)
        → Leaves (update_target_endpoints api true name ips size ports)
    unfolding update_target_endpoints put_service
    update_target_endpoints-Leaves name ips size ports =
        let put = put_service api true name ports in
        let apply = apply_slices api true name ports 0 (chunk size ips) in
        bind-Leaves (api.namespace >> put >> apply) (λ names. pure tt)
          (bind-Leaves (api.namespace >> put) (λ _. apply)
            (bind-Leaves api.namespace (λ _. put) law.reading
              (λ _. law.printing_service name ports))
            (λ _. apply_slices-Leaves name ports 0 (chunk size ips)))
          (λ names w. refl)

    pub apply_config_map-Leaves :
        (name : String) (m : Map String) → Leaves (apply_config_map api true name m)
    unfolding apply_config_map
    apply_config_map-Leaves name m =
        bind-Leaves api.namespace (λ _. api.print_map name m) law.reading
          (λ _. law.printing_map name m)
