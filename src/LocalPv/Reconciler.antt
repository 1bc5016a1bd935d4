-- ===== src/LocalPv/Reconciler.antt =====
-- The clean-up of released volumes, local-pv-provisioner/controllers/persistent_volume.go.
pub mod Laws
pub mod Removes
use neco_containers.Base.{
  ℕ, Bool, true, false, not, ◌||◌, List, [], ◌∷◌, ◌++◌, Option, none, some, String, ◌==◌, Result,
  ok, err, Exec, Map, lookup, get_text, is_some, on_result, if◌then◌else◌,
}
use neco_containers.LocalPv.Volume.{Volume, Phase, released, legacy_label_key, LocalSource}

-- The calls: the API server's Get, Delete and List with a label, IsNotFound, and the deleter.
pub record ReconcilerApi (W E : Type 0) : Type 0 where
  pub get : List ℕ → Exec W E Volume
  pub delete : Volume → Exec W E (Unit {0})
  pub list : String → String → Exec W E (List Volume)
  pub is_not_found : E → Bool
  pub delete_device : String → Exec W E (Unit {0})

-- What Reconcile returns; a volume that is not local is a nil dereference.
pub data Outcome (E : Type 0) : Type 0 where
  done : Outcome E
  failed : E → Outcome E
  panicked : Outcome E

unfoldable pub is_released : Phase → Bool
is_released released = true
is_released phase = false

-- The volumes that `fireEvent` sends on the channel, in order.
unfoldable pub events : List Volume → List Volume
unfolding is_released
events [] = []
events (pv ∷ pvs) = let rest = events pvs in if not (is_released pv.phase) then rest else pv ∷ rest

module _ {W E : Type 0} (api : ReconcilerApi W E) (node_name : String) where
  delete_volume : Volume → W → Outcome E × W
  delete_volume pv w =
      let (r, w') = api.delete pv w in on_result r (λ u. (done, w')) (λ e. (failed e, w'))

  -- The device is cleaned up, an error of which is only logged, and the volume is deleted.
  clean_up : Volume → Option LocalSource → W → Outcome E × W
  unfolding delete_volume
  clean_up pv none w = (panicked, w)
  clean_up pv (some source) w = delete_volume pv (api.delete_device source.path w).1

  unfoldable pub reconcile : List ℕ → W → Outcome E × W
  unfolding clean_up is_released
  reconcile name w =
      let (r, w1) = api.get name w in
      on_result r
        (λ pv.
          if not (is_some (lookup legacy_label_key pv.labels))
            || not (get_text legacy_label_key pv.labels == node_name)
          then (done, w1)
          else if not (is_released pv.phase)
          then (done, w1)
          else clean_up pv pv.source w1)
        (λ e. (if api.is_not_found e then done else failed e, w1))

  unfoldable pub fire_event : Exec W E (List Volume)
  unfolding events
  fire_event w =
      let (r, w1) = api.list legacy_label_key node_name w in
      on_result r (λ pvs. (ok (events pvs), w1)) (λ e. (err e, w1))
