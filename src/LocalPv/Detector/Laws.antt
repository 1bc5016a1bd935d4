-- ===== src/LocalPv/Detector/Laws.antt =====
-- What a pass of the device detector may do to the world.
use neco_containers.Base.{
  ℕ, ◌≡◌, Bool, true, List, [], ◌∷◌, Option, none, some, String, ◌==◌, err, on_result-lift, if-lift,
  lookup,
}
use neco_containers.LocalPv.Spec.{PvSpec, parse_pv_spec_config_map}
use neco_containers.LocalPv.Volume.{
  Device, Node, legacy_label_key, annot_pv_spec_config_map, has_annots_set_by_another_configuration,
  create_pv, pv_name,
}
use neco_containers.LocalPv.Walk.{list_local_devices}
use neco_containers.LocalPv.Detector.{
  DetectorApi, Config, Gauges, Tally, provision, clean_and_provision, process, process_all,
  make_volumes, check_existing, use_config_map, choose_config_map, detect,
}

module _ {W E Regex : Type 0} (api : DetectorApi W E Regex) (c : Config) (P : W → Type 0) where
  -- `P` survives every call but the clean-up of a device, and survives that for each device whose
  -- volume the API server has just reported as not found.
  pub record IsKept : Type 0 where
    pub get_node : (n : String) (w : W) → P w → P (api.get_node n w).1
    pub get_config_map : (n ns : String) (w : W) → P w → P (api.get_config_map n ns w).1
    pub list_pvs : (k v : String) (w : W) → P w → P (api.list_pvs k v w).1
    pub walk :
        (m : String → Bool) (dir : String) (w : W)
        → P w
        → P (list_local_devices api.walks api.names.base m dir w).1
    pub get_pv : (n : List ℕ) (w : W) → P w → P (api.get_pv n w).1
    pub create :
        (dev : Device) (node : Node) (s : PvSpec Regex) (w : W)
        → P w
        → P (create_pv api.volumes api.names c.node_name dev node s w).1
    pub clean :
        (path : String) (w : W) (e : E)
        → P w
        → (api.get_pv (pv_name api.names c.node_name path) w).0 ≡ err e
        → api.is_not_found e ≡ true
        → P (api.delete_device path (api.get_pv (pv_name api.names c.node_name path) w).1).1

module _ {W E Regex : Type 0} (api : DetectorApi W E Regex) (c : Config) (P : W → Type 0)
    (k : IsKept api c P) where
  provision_keeps :
      (node : Node) (s : PvSpec Regex) (dev : Device) (t : Tally) (w : W)
      → P w
      → P (provision api c node s dev t w).1
  unfolding provision
  provision_keeps node s dev t w h = k.create dev node s w h

  process_keeps :
      (node : Node) (s : PvSpec Regex) (dev : Device) (t : Tally) (w : W)
      → P w
      → P (process api c node s dev t w).1
  unfolding process clean_and_provision
  process_keeps node s dev t w h =
      let name = pv_name api.names c.node_name dev.path in
      let w1 = (api.get_pv name w).1 in
      let w2 = (api.delete_device dev.path w1).1 in
      on_result-lift (λ (x : Tally × W). P x.1) (api.get_pv name w).0 _ _
        (λ pv found. provision_keeps node s dev t w1 (k.get_pv name w h))
        (λ e missing.
          if-lift (λ (x : Tally × W). P x.1) (api.is_not_found e) _ _
            (λ gone.
              let h2 = k.clean dev.path w e h missing gone in
              on_result-lift (λ (x : Tally × W). P x.1) (api.delete_device dev.path w1).0 _ _
                (λ u done. provision_keeps node s dev t w2 h2) (λ e' failed. h2))
            (λ other. provision_keeps node s dev t w1 (k.get_pv name w h)))

  process_all_keeps :
      (node : Node) (s : PvSpec Regex) (devs : List Device) (t : Tally) (w : W)
      → P w
      → P (process_all api c node s devs t w).1
  unfolding process_all
  process_all_keeps node s [] t w h = h
  process_all_keeps node s (dev ∷ devs) t w h =
      process_all_keeps node s devs (process api c node s dev t w).0
        (process api c node s dev t w).1 (process_keeps node s dev t w h)

  make_volumes_keeps :
      (node : Node) (s : PvSpec Regex) (g : Gauges) (w : W)
      → P w
      → P (make_volumes api c node s g w).1
  unfolding make_volumes
  make_volumes_keeps node s g w h =
      let m = api.match_string s.device_name_filter_compiled in
      let h1 = k.walk m s.device_dir w h in
      on_result-lift (λ (x : Gauges × W). P x.1)
        (list_local_devices api.walks api.names.base m s.device_dir w).0 _ _
        (λ found e.
          process_all_keeps node s found.devs (record { avail = []; errors = found.err_devs }) _ h1)
        (λ x e. h1)

  check_existing_keeps :
      (node : Node) (s : PvSpec Regex) (g : Gauges) (w : W)
      → P w
      → P (check_existing api c node s g w).1
  unfolding check_existing
  check_existing_keeps node s g w h =
      let h1 = k.list_pvs legacy_label_key node.name w h in
      on_result-lift (λ (x : Gauges × W). P x.1) (api.list_pvs legacy_label_key node.name w).0 _ _
        (λ pvs e.
          if-lift (λ (x : Gauges × W). P x.1) (has_annots_set_by_another_configuration s pvs) _ _
            (λ conflict. h1) (λ fine. make_volumes_keeps node s g _ h1))
        (λ x e. h1)

  use_config_map_keeps :
      (node : Node) (n : String) (g : Gauges) (w : W) → P w → P (use_config_map api c node n g w).1
  unfolding use_config_map
  use_config_map_keeps node n g w h =
      let h1 = k.get_config_map n c.working_namespace w h in
      let w1 = (api.get_config_map n c.working_namespace w).1 in
      on_result-lift (λ (x : Gauges × W). P x.1) (api.get_config_map n c.working_namespace w).0 _ _
        (λ cm e.
          on_result-lift (λ (x : Gauges × W). P x.1) (parse_pv_spec_config_map (api.platform w1) cm)
            _ _ (λ s e'. check_existing_keeps node s g w1 h1) (λ x e'. h1))
        (λ x e. h1)

  choose_config_map_keeps :
      (node : Node) (o : Option String) (g : Gauges) (w : W)
      → P w
      → P (choose_config_map api c node o g w).1
  unfolding choose_config_map
  choose_config_map_keeps node (some n) g w h = use_config_map_keeps node n g w h
  choose_config_map_keeps node none g w h =
      if-lift (λ (x : Gauges × W). P x.1) (c.default_pv_spec_config_map == "") _ _ (λ e. h)
        (λ e. use_config_map_keeps node c.default_pv_spec_config_map g w h)

  -- A pass of the detector keeps every property of the world that each of its calls keeps, where
  -- the clean-up of a device has to keep it only right after the API server reported the volume of
  -- that device as not found: a device with a volume is never cleaned up.
  pub detect_keeps : (g : Gauges) (w : W) → P w → P (detect api c g w).1
  unfolding detect
  detect_keeps g w h =
      let h1 = k.get_node c.node_name w h in
      on_result-lift (λ (x : Gauges × W). P x.1) (api.get_node c.node_name w).0 _ _
        (λ node e.
          choose_config_map_keeps node (lookup annot_pv_spec_config_map node.annotations) g _ h1)
        (λ x e. h1)
