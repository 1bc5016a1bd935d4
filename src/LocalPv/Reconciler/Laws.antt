-- ===== src/LocalPv/Reconciler/Laws.antt =====
-- Which volumes the reconciler touches.
use mathlib.Core.List.{Memᴰ}
use neco_containers.Base.{
  ℕ, ◌≡◌, ◌≢◌, ◌⊎◌, inl, inr, List, [], ◌∷◌, some, String, eq_iff, ok, lookup, get_text, arith,
  on_result, ◌↔◌,
}
use neco_containers.LocalPv.Volume.{Volume, released, legacy_label_key, LocalSource}
use neco_containers.LocalPv.Reconciler.{
  ReconcilerApi, done, failed, reconcile, fire_event, events, is_released,
}

module _ {W E : Type 0} (api : ReconcilerApi W E) (node_name : String) (name : List ℕ) (w : W) where
  -- A volume that is not labelled with this node, or that is not released, is left alone: after
  -- the read nothing is called, and the request is done.
  pub reconcile_ignores :
      {pv : Volume}
      → (api.get name w).0 ≡ ok pv
      → (lookup legacy_label_key pv.labels ≢ some node_name) ⊎ (pv.phase ≢ released)
      → reconcile api node_name name w ≡ (done, (api.get name w).1)
  unfolding reconcile get_text
  reconcile_ignores {pv} e h =
      ground (arith, eq_iff (get_text legacy_label_key pv.labels) node_name)

  -- A released local volume of this node is deleted right after the clean-up of its device was
  -- tried, also if that fails; the result is that of the deletion.
  pub reconcile_releases :
      {pv : Volume} (source : LocalSource)
      → (api.get name w).0 ≡ ok pv
      → lookup legacy_label_key pv.labels ≡ some node_name
      → pv.phase ≡ released
      → pv.source ≡ some source
      → let w2 = (api.delete_device source.path (api.get name w).1).1 in
        reconcile api node_name name w
        ≡ (on_result (api.delete pv w2).0 (λ u. done) (λ x. failed x), (api.delete pv w2).1)
  unfolding reconcile get_text
  reconcile_releases {pv} source e l p s = ground (arith, eq_iff node_name node_name)

events_head :
    (q : Volume) (pvs : List Volume)
    → (events (q ∷ pvs) ≡ events pvs) ⊎ ((q.phase ≡ released) × (events (q ∷ pvs) ≡ q ∷ events pvs))
unfolding events is_released
events_head q pvs = ground arith

events_keep :
    (q : Volume) (pvs : List Volume) → q.phase ≡ released → events (q ∷ pvs) ≡ q ∷ events pvs
unfolding events is_released
events_keep q pvs r = ground arith

events_complete :
    {pv : Volume} (pvs : List Volume) → pv.phase ≡ released → Memᴰ pv pvs → Memᴰ pv (events pvs)
events_complete [] p m = elim m [ ]
events_complete {pv} (q ∷ pvs) p (Memᴰ.head e) = rw (events_keep q pvs (ground arith)) (Memᴰ.head e)
events_complete {pv} (q ∷ pvs) p (Memᴰ.tail m) = elim (events_head q pvs) [
  | inl e ↦ rw e (events_complete pvs p m)
  | inr (r, e) ↦ rw e (Memᴰ.tail (events_complete pvs p m))
]

events_sound :
    {pv : Volume} (pvs : List Volume) → Memᴰ pv (events pvs) → (pv.phase ≡ released) × Memᴰ pv pvs
events_sound [] m = unfold events in elim m [ ]
events_sound {pv} (q ∷ pvs) m = elim (events_head q pvs) [
  | inl e ↦ let (p, m') = events_sound pvs (rw e at m) in (p, Memᴰ.tail m')
  | inr (r, e) ↦ at_head (rw e at m) r (events_sound pvs)
]
  where
    at_head :
        Memᴰ pv (q ∷ events pvs)
        → q.phase ≡ released
        → (Memᴰ pv (events pvs) → (pv.phase ≡ released) × Memᴰ pv pvs)
        → (pv.phase ≡ released) × Memᴰ pv (q ∷ pvs)
    at_head (Memᴰ.head x) r ih = (ground arith, Memᴰ.head x)
    at_head (Memᴰ.tail m') r ih = let (p, m'') = ih m' in (p, Memᴰ.tail m'')

-- When the list of the node's volumes can be read, the periodic event source sends exactly the
-- released ones among them.
fire_event_sends :
    {W E : Type 0} (api : ReconcilerApi W E) (node_name : String) (w : W) {pvs : List Volume}
    (pv : Volume)
    → (api.list legacy_label_key node_name w).0 ≡ ok pvs
    → ((fire_event api node_name w).0 ≡ ok (events pvs))
      × (Memᴰ pv (events pvs) ↔ ((pv.phase ≡ released) × Memᴰ pv pvs))
unfolding fire_event
fire_event_sends api node_name w {pvs} pv e =
    (rw e, ((λ m. events_sound pvs m), λ h. events_complete pvs h.0 h.1))
