-- ===== src/Endpoints/Slices.antt =====
-- machines-endpoints/pkg/machines-endpoints/k8sresource.go, `updateTargetEndpoints` and
-- `applyConfigMap`. The calls are in the namespace of the client's configuration.
pub mod Laws
pub mod Refines
pub mod Dry
use neco_containers.Base.{
  ℕ, zero, suc, String, ◌==◌, Option, none, some, Result, ok, err, Exec, pure, raise, proceed,
  ◌>>=◌, ◌>>◌, List, [], ◌∷◌, ◌++◌, contains, Map, Bool, true, false, not, ◌&&◌, if◌then◌else◌,
}
use neco_containers.Endpoints.Ports.{NamedPort}

-- The calls of the API server, and the printing of a dry run; the slices listed are those with the
-- labels of the target.
pub record KubeApi (W E Ip : Type 0) : Type 0 where
  pub namespace : Exec W E String
  pub apply_service : String → List NamedPort → Exec W E (Unit {0})
  pub print_service : String → List NamedPort → Exec W E (Unit {0})
  pub apply_slice : String → List Ip → List NamedPort → Exec W E (Unit {0})
  pub print_slice : String → List Ip → List NamedPort → Exec W E (Unit {0})
  pub apply_map : String → Map String → Exec W E (Unit {0})
  pub print_map : String → Map String → Exec W E (Unit {0})
  pub list_slices : String → Exec W E (List String)
  pub delete_slice : String → Exec W E (Unit {0})
  pub is_not_found : E → Bool
  pub slice_name : String → ℕ → String

-- slices.Chunk. `room` is what is left in the current chunk, `size` is n - 1.
unfoldable pub chunk_from {ℓ} : {A : Type ℓ} → ℕ → ℕ → List A → List A → List (List A)
chunk_from size room current [] = current ∷ []
chunk_from size zero current (x ∷ xs) = current ∷ chunk_from size size (x ∷ []) xs
chunk_from size (suc room) current (x ∷ xs) = chunk_from size room (current ++ x ∷ []) xs

unfoldable pub chunk {ℓ} : {A : Type ℓ} → ℕ → List A → List (List A)
unfolding chunk_from
chunk size [] = []
chunk size (x ∷ xs) = chunk_from size size (x ∷ []) xs

module _ {W E Ip : Type 0} (api : KubeApi W E Ip) (dry_run : Bool) where
  put_service : String → List NamedPort → Exec W E (Unit {0})
  put_service name ports =
      if dry_run then api.print_service name ports else api.apply_service name ports

  unfoldable pub put_slice : String → List Ip → List NamedPort → Exec W E (Unit {0})
  put_slice n ips ports =
      if dry_run then api.print_slice n ips ports else api.apply_slice n ips ports

  -- The slices from the given index on, with the names applied.
  unfoldable pub apply_slices :
      String → List NamedPort → ℕ → List (List Ip) → Exec W E (List String)
  unfolding put_slice
  apply_slices name ports i [] = pure []
  apply_slices name ports i (ips ∷ chunks) =
      let n = api.slice_name name i in
      put_slice n ips ports >> apply_slices name ports (suc i) chunks >>= λ ns. pure (n ∷ ns)

  -- The result of a deletion: a slice that is not found is no error.
  after_delete : Result E (Unit {0}) → Exec W E (Unit {0})
  after_delete (ok u) w = (ok tt, w)
  after_delete (err e) w = if not (api.is_not_found e) then (err e, w) else (ok tt, w)

  delete_one : String → Exec W E (Unit {0})
  unfolding after_delete
  delete_one n w = let (r, w') = api.delete_slice n w in after_delete r w'

  unfoldable pub delete_stale : List String → List String → Exec W E (Unit {0})
  unfolding delete_one
  delete_stale names [] = pure tt
  delete_stale names (n ∷ ns) =
      let rest = delete_stale names ns in
      let deleted = delete_one n >> delete_stale names ns in
      if contains names n then rest else deleted

  delete_unnecessary : String → List String → Exec W E (Unit {0})
  unfolding delete_stale
  delete_unnecessary name names = api.list_slices name >>= λ listed. delete_stale names listed

  unfoldable pub update_target_endpoints :
      String → List Ip → ℕ → List NamedPort → Exec W E (Unit {0})
  unfolding put_service apply_slices delete_unnecessary chunk
  update_target_endpoints name ips size ports =
      api.namespace
      >> put_service name ports
      >> apply_slices name ports 0 (chunk size ips)
      >>= λ names. if dry_run then pure tt else delete_unnecessary name names

  unfoldable pub apply_config_map : String → Map String → Exec W E (Unit {0})
  apply_config_map name content =
      api.namespace >> (if dry_run then api.print_map name content else api.apply_map name content)
