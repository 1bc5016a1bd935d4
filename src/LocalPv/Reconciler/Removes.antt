-- ===== src/LocalPv/Reconciler/Removes.antt =====
-- Which volumes are there after a call of `Reconcile`, persistent_volume.go.
use neco_containers.Base.{ℕ, ◌≡◌, ◌≢◌, ◌⊎◌, true, List, Option, none, some, String, ok, err, lookup}
use neco_containers.LocalPv.Volume.{Volume, released, legacy_label_key, LocalSource}
use neco_containers.LocalPv.Reconciler.{ReconcilerApi, Outcome, done, failed, panicked}

-- The volumes of the API server by their names, of which one marked for deletion is none, and the
-- devices of which the clean-up was tried; what the calls say of them and do to them. A deletion
-- that fails may have been carried out.
pub record Shows {W E : Type 0} (api : ReconcilerApi W E) (view : W → List ℕ → Option Volume)
    (Tried : W → String → Type 0) : Type 0 where
  pub getting :
      (name : List ℕ) (w : W) (pv : Volume)
      → (api.get name w).0 ≡ ok pv
      → (view w name ≡ some pv) × (pv.name ≡ name)
  pub missing :
      (name : List ℕ) (w : W) (e : E)
      → (api.get name w).0 ≡ err e
      → api.is_not_found e ≡ true
      → view w name ≡ none
  pub reading : (name : List ℕ) (w : W) (n : List ℕ) → view (api.get name w).1 n ≡ view w n
  pub cleaning :
      (path : String) (w : W) (n : List ℕ) → view (api.delete_device path w).1 n ≡ view w n
  pub trying : (path : String) (w : W) → Tried (api.delete_device path w).1 path
  pub deleting :
      (pv : Volume) (w : W) (n : List ℕ)
      → (view (api.delete pv w).1 n ≡ view w n)
        ⊎ ((n ≡ pv.name) × (view (api.delete pv w).1 n ≡ none))
  pub deleted :
      (pv : Volume) (w : W) (u : Unit {0})
      → (api.delete pv w).0 ≡ ok u
      → view (api.delete pv w).1 pv.name ≡ none
  pub tried_before :
      (pv : Volume) (w : W) (path : String) → Tried w path → Tried (api.delete pv w).1 path

-- No released volume of the node.
abbrev pub IsSettled : String → Option Volume → Type 0
IsSettled node_name none = Unit
IsSettled node_name (some pv) =
    (lookup legacy_label_key pv.labels ≢ some node_name) ⊎ (pv.phase ≢ released)

-- What an outcome says of the volume that is there afterwards.
abbrev pub Agrees : {E : Type 0} → String → Outcome E → Option Volume → Type 0
Agrees node_name done v = IsSettled node_name v
Agrees node_name (failed e) v = Unit
Agrees node_name panicked v = (pv : Volume) × (v ≡ some pv) × (pv.source ≡ none)

-- The volume is one that the reconciler deals with.
IsDue : String → Volume → Type 0
IsDue node_name pv = (lookup legacy_label_key pv.labels ≡ some node_name) × (pv.phase ≡ released)

module _ {W : Type 0} (node_name : String) (view : W → List ℕ → Option Volume)
    (Tried : W → String → Type 0) where
  -- The volume of the name `n`, before and after: it is as it was, or it was a released local
  -- volume of the node under the given name, the clean-up of its device was tried, and it is gone.
  abbrev pub KeptOrReleased : List ℕ → W → W → List ℕ → Type 0
  KeptOrReleased name w w' n =
      (view w' n ≡ view w n)
      ⊎ ((n ≡ name)
          × (pv : Volume) × (source : LocalSource) × (view w n ≡ some pv)
          × (lookup legacy_label_key pv.labels ≡ some node_name)
          × (pv.phase ≡ released)
          × (pv.source ≡ some source)
          × Tried w' source.path
          × (view w' n ≡ none))

  abbrev pub IsReconciled : {E : Type 0} → List ℕ → W → Outcome E × W → Type 0
  IsReconciled name w (o, w') =
      Agrees node_name o (view w' name) × ((n : List ℕ) → KeptOrReleased name w w' n)
