-- ===== src/BmcProxy/Laws.antt =====
-- The proxy with the map that machines-endpoints writes, and what the caches keep.
use neco_containers.Base.{
  ℕ, ◌≡◌, refl, String, true, Option, none, some, List, [], ◌∷◌, Map, lookup, is_some, inl, inr,
  Option-cases, Result-cases,
}
use neco_containers.Endpoints.Machines.{Machine, Texts, bmc_reverse_proxy_config_map_data}
use neco_containers.Endpoints.Machines.Laws.{address_of, lookup-bmc_reverse_proxy_config_map_data}
use neco_containers.BmcProxy.{
  HostTexts, Request, Caches, Load, get_hostname, or_invalid, or_upper, resolve, director_to_inner,
  map_of, direct, update_certificate, update_resolve_map, update_rest, update, update_loop,
}

-- The address, or that of the second, or an address that fails.
unfoldable pub first_address : Option String → Option String → String
first_address (some address) second = address
first_address none (some address) = address
first_address none none = "0.0.0.0"

resolve-first :
    (t : HostTexts) (h : String) (m : Map String)
    → resolve t h m ≡ first_address (lookup h m) (lookup (t.to_upper h) m)
unfolding resolve or_invalid or_upper first_address
resolve-first t h m = elim (Option-cases (lookup h m)) [
  | inr (a, e) ↦ rw (e, resolve) refl
  | inl e ↦ elim (Option-cases (lookup (t.to_upper h) m)) [
    | inr (a, f) ↦ rw (e, resolve, f) refl
    | inl f ↦ rw (e, resolve, f) refl
  ]
]

module _ {E Ip Cert : Type 0} (t : HostTexts) (x : Texts E Ip) (machines : List Machine) where
  -- With the map that machines-endpoints writes for some machines, a request is sent to the port at
  -- the BMC address of the last machine that has the host name of the request as a name, or else of
  -- the last machine that has it in upper case, where only machines with both addresses count; for a
  -- name that no machine has it is sent to an address that fails.
  pub url_host-direct :
      (inner : ℕ) (certificate : Option Cert) (request : Request)
      → (direct t inner
          (record {
            certificate = certificate;
            resolve_map = some (bmc_reverse_proxy_config_map_data x machines);
          })
          request).url_host
        ≡ t.join_host_port
            (first_address
              (address_of x (get_hostname t request.host) machines none)
              (address_of x (t.to_upper (get_hostname t request.host)) machines none))
            inner
  unfolding direct director_to_inner map_of
  url_host-direct inner certificate request =
      let h = get_hostname t request.host in
      let m = bmc_reverse_proxy_config_map_data x machines in
      rw
        (
          resolve-first t h m,
          lookup-bmc_reverse_proxy_config_map_data x h machines,
          lookup-bmc_reverse_proxy_config_map_data x (t.to_upper h) machines,
        )
        refl

-- A cache that something was stored in is never empty again, also where a load fails.
IsKept : {Cert : Type 0} → Caches Cert → Caches Cert → Type 0
IsKept c d =
    (is_some c.certificate ≡ true → is_some d.certificate ≡ true)
    × (is_some c.resolve_map ≡ true → is_some d.resolve_map ≡ true)

module _ {E Cert : Type 0} where
  update_resolve_map-IsKept :
      (l : Load E Cert) (c : Caches Cert) → IsKept c (update_resolve_map l c).1
  unfolding update_resolve_map IsKept
  update_resolve_map-IsKept l c = elim (Result-cases l.namespace) [
    | inr (e, i) ↦ rw (i, update_resolve_map) ((λ h. h), (λ h. h))
    | inl (ns, i) ↦ elim (Result-cases l.config_map) [
      | inr (e, j) ↦ rw (i, update_resolve_map, j) ((λ h. h), (λ h. h))
      | inl (m, j) ↦ rw (i, update_resolve_map, j) ((λ h. h), (λ h. refl))
    ]
  ]

  update-IsKept : (l : Load E Cert) (c : Caches Cert) → IsKept c (update l c).1
  unfolding update update_certificate update_rest IsKept
  update-IsKept l c = elim (Result-cases l.key_pair) [
    | inr (e, i) ↦ rw (i, update, update_certificate) ((λ h. h), (λ h. h))
    | inl (cert, i) ↦
        let k = update_resolve_map-IsKept l (record c { certificate = some cert }) in
        rw (i, update, update_certificate) ((λ h. k.0 refl), k.1)
  ]

  update_loop-IsKept : (ls : List (Load E Cert)) (c : Caches Cert) → IsKept c (update_loop ls c).1
  unfolding update_loop IsKept
  update_loop-IsKept [] c = ((λ h. h), (λ h. h))
  update_loop-IsKept (l ∷ ls) c =
      let k = update-IsKept l c in
      elim (Result-cases (update l c).0) [
        | inr (e, i) ↦ rw (i, update_loop) k
        | inl (u, i) ↦
            let j = update_loop-IsKept ls (update l c).1 in
            rw (i, update_loop) ((λ h. j.0 (k.0 h)), (λ h. j.1 (k.1 h)))
      ]
