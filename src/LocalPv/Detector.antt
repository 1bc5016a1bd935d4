-- ===== src/LocalPv/Detector.antt =====
-- One pass of the device detector, `do` of local-pv-provisioner/controllers/device_detector.go.
pub mod Laws
pub mod Counts
use neco_containers.Base.{
  ℕ, Bool, List, [], ◌∷◌, ◌++◌, Option, none, some, String, ◌==◌, Result, ok, err, Exec, Map,
  lookup, length, on_result, if◌then◌else◌,
}
use neco_containers.LocalPv.Spec.{Platform, PvSpec, parse_pv_spec_config_map}
use neco_containers.LocalPv.Volume.{
  Device, Node, Volume, Names, VolumeApi, legacy_label_key, annot_pv_spec_config_map,
  has_annots_set_by_another_configuration, create_pv, pv_name,
}
use neco_containers.LocalPv.Walk.{WalkApi, Found, list_local_devices}

-- The other calls: reads of the API server, the test IsNotFound, the deleter, and the match of a
-- compiled filter.
pub record DetectorApi (W E Regex : Type 0) : Type 0 where
  pub get_node : String → Exec W E Node
  pub get_config_map : String → String → Exec W E (Map String)
  pub list_pvs : String → String → Exec W E (List Volume)
  pub get_pv : List ℕ → Exec W E Volume
  pub is_not_found : E → Bool
  pub delete_device : String → Exec W E (Unit {0})
  pub match_string : Regex → String → Bool
  pub platform : W → Platform Regex
  pub names : Names
  pub volumes : VolumeApi W E
  pub walks : WalkApi W E

pub record Config : Type 0 where
  pub node_name : String
  pub default_pv_spec_config_map : String
  pub working_namespace : String

-- The two gauges; `none` is a gauge that was never set.
pub record Gauges : Type 0 where
  pub available_devices : Option ℕ
  pub error_devices : Option ℕ

-- availDevices and errDevices in the loop.
pub record Tally : Type 0 where
  pub avail : List Device
  pub errors : List Device

module _ {W E Regex : Type 0} (api : DetectorApi W E Regex) (c : Config) where
  -- The second half of the loop's body: a failed createPV is an error device, and the device is
  -- available in any case.
  unfoldable pub provision : Node → PvSpec Regex → Device → Tally → W → Tally × W
  provision node s dev t w =
      let (r, w') = create_pv api.volumes api.names c.node_name dev node s w in
      let errors = on_result r (λ u. t.errors) (λ e. t.errors ++ dev ∷ []) in
      (record { avail = t.avail ++ dev ∷ []; errors = errors }, w')

  -- The volume is not found: the device is cleaned up first.
  unfoldable pub clean_and_provision : Node → PvSpec Regex → Device → Tally → W → Tally × W
  unfolding provision
  clean_and_provision node s dev t w =
      let (r, w') = api.delete_device dev.path w in
      on_result r (λ u. provision node s dev t w')
        (λ e. (record t { errors = t.errors ++ dev ∷ [] }, w'))

  -- The first half: the volume of the device is looked up.
  unfoldable pub process : Node → PvSpec Regex → Device → Tally → W → Tally × W
  process node s dev t w =
      let (r, w') = api.get_pv (pv_name api.names c.node_name dev.path) w in
      on_result r (λ pv. provision node s dev t w')
        (λ e.
          if api.is_not_found e
          then clean_and_provision node s dev t w'
          else provision node s dev t w')

  unfoldable pub process_all : Node → PvSpec Regex → List Device → Tally → W → Tally × W
  process_all node s [] t w = (t, w)
  process_all node s (dev ∷ devs) t w =
      let (t', w') = process node s dev t w in process_all node s devs t' w'

  abbrev set_gauges : Tally × W → Gauges × W
  set_gauges (t, w) = (
    record { available_devices = some (length t.avail); error_devices = some (length t.errors) },
    w,
  )

  -- The devices are listed and processed, and the gauges are set.
  unfoldable pub make_volumes : Node → PvSpec Regex → Gauges → W → Gauges × W
  make_volumes node s g w =
      let (r, w1) =
        list_local_devices api.walks api.names.base (api.match_string s.device_name_filter_compiled)
          s.device_dir w in
      on_result r
        (λ found.
          set_gauges
            (process_all node s found.devs (record { avail = []; errors = found.err_devs }) w1))
        (λ e. (g, w1))

  unfoldable pub check_existing : Node → PvSpec Regex → Gauges → W → Gauges × W
  check_existing node s g w =
      let (r, w1) = api.list_pvs legacy_label_key node.name w in
      on_result r
        (λ pvs.
          if has_annots_set_by_another_configuration s pvs
          then (g, w1)
          else make_volumes node s g w1)
        (λ e. (g, w1))

  unfoldable pub use_config_map : Node → String → Gauges → W → Gauges × W
  use_config_map node cm_name g w =
      let (r, w1) = api.get_config_map cm_name c.working_namespace w in
      on_result r
        (λ cm.
          on_result (parse_pv_spec_config_map (api.platform w1) cm)
            (λ s. check_existing node s g w1) (λ e. (g, w1)))
        (λ e. (g, w1))

  -- The name comes from the node's annotation, or else is the default, if that is not empty.
  unfoldable pub choose_config_map : Node → Option String → Gauges → W → Gauges × W
  choose_config_map node (some cm_name) g w = use_config_map node cm_name g w
  choose_config_map node none g w =
      if c.default_pv_spec_config_map == ""
      then (g, w)
      else use_config_map node c.default_pv_spec_config_map g w

  unfoldable pub detect : Gauges → W → Gauges × W
  detect g w =
      let (r, w1) = api.get_node c.node_name w in
      on_result r
        (λ node. choose_config_map node (lookup annot_pv_spec_config_map node.annotations) g w1)
        (λ e. (g, w1))
