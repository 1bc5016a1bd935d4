-- ===== src/Examples/Provisioning.antt =====
-- The device detector and the reconciler, at a small cluster.
use mathlib.Core.List.{Memᴰ}
use neco_containers.Base.{
  ℕ, ◌+◌, ◌≡◌, refl, Bool, true, false, List, [], ◌∷◌, Option, none, some, String, Result, ok, err,
  Map, length, arith,
}
use neco_containers.LocalPv.Spec.{PvSpec}
use neco_containers.LocalPv.Volume.{
  Device, Node, Volume, Operation, Phase, released, bound, legacy_label_key, create_pv,
}
use neco_containers.LocalPv.Walk.{list_local_devices, walk, visit_info, get_capacity_bytes}
use neco_containers.LocalPv.Detector.{DetectorApi, Config, Gauges, Tally, process_all, detect}
use neco_containers.LocalPv.Detector.Laws.{IsKept, detect_keeps}
use neco_containers.LocalPv.Detector.Counts.{total-process_all}
use neco_containers.LocalPv.Reconciler.{ReconcilerApi, Outcome, done}

abbrev volume : Phase → Volume
volume phase = record {
  name = [];
  labels = (legacy_label_key, "node-1") ∷ [];
  annotations = [];
  access_modes = [];
  capacity_storage = none;
  node_affinity = none;
  reclaim_policy = none;
  source = some (record { path = "/dev/a"; fs_type = none });
  storage_class_name = "local";
  volume_mode = none;
  owner = none;
  phase = phase;
}

abbrev node : Node
node = record { name = "node-1"; annotations = [] }

abbrev spec : PvSpec String
spec = record {
  storage_class_name = "local";
  volume_mode = "Block";
  fs_type = "";
  device_dir = "/d";
  device_name_filter = "ssd";
  device_name_filter_compiled = "ssd";
}

abbrev config : Config
config = record {
  node_name = "node-1";
  default_pv_spec_config_map = "pvs";
  working_namespace = "ns";
}

abbrev config_map : Map String
config_map =
    ("storageClassName", "local")
    ∷ ("volumeMode", "Block")
    ∷ ("deviceDir", "/dev/disk")
    ∷ ("deviceNameFilter", "ssd")
    ∷ []

-- The world is the list of the devices that were cleaned up; the volumes are updated with the given
-- result.
abbrev detector_api : Result ℕ Operation → DetectorApi (List String) ℕ String
detector_api answer = record {
  get_node = λ n w. (ok node, w);
  get_config_map = λ n ns w. (ok config_map, w);
  list_pvs = λ k v w. (ok [], w);
  get_pv = λ n w. (ok (volume bound), w);
  is_not_found = λ e. true;
  delete_device = λ path w. (ok tt, path ∷ w);
  match_string = λ r s. true;
  platform =
      λ w. record { is_abs = λ d. true; stat_is_dir = λ d. some true; compile = λ f. some f };
  names = record { base = λ p. p; codes = λ s. [] };
  volumes = record {
    create_or_update = λ n f w. (answer, w);
    set_controller_reference = λ nd pv. ok pv;
  };
  walks = record {
    visits = λ dir w. record { path = "/d/a"; info = ok false } ∷ [];
    open_file = λ p w. (ok tt, w);
    seek_end = λ w. (ok 512, w);
  };
}

abbrev working : DetectorApi (List String) ℕ String
working = detector_api (ok Operation.updated)

abbrev broken : DetectorApi (List String) ℕ String
broken = detector_api (err 500)

-- Nothing was cleaned up.
abbrev IsUntouched : List String → Type 0
IsUntouched w = w ≡ []

working-IsKept : IsKept working config IsUntouched
unfolding list_local_devices walk visit_info get_capacity_bytes create_pv
working-IsKept = record {
  get_node = λ n w h. h;
  get_config_map = λ n ns w h. h;
  list_pvs = λ k v w h. h;
  walk = λ m dir w h. ground arith;
  get_pv = λ n w h. h;
  create = λ dev nd s w h. h;
  clean = λ path w e h missing gone. cc;
}

abbrev no_gauges : Gauges
no_gauges = record { available_devices = none; error_devices = none }

detect_keeps_example : IsUntouched (detect working config no_gauges []).1
detect_keeps_example = detect_keeps working config IsUntouched working-IsKept no_gauges [] refl

abbrev device : Device
device = record { path = "/d/a"; capacity_bytes = 512 }

abbrev nothing : Tally
nothing = record { avail = []; errors = [] }

total-process_all_example :
    length (process_all working config node spec (device ∷ []) nothing []).0.avail
      + length (process_all working config node spec (device ∷ []) nothing []).0.errors
    ≡ 1
unfolding create_pv
total-process_all_example =
    total-process_all working config node spec (device ∷ []) nothing [] (λ dev w. refl)

-- A released volume with the empty name, while the first component is true, and the devices of which
-- the clean-up was tried.
abbrev World : Type 0
World = Bool × List String

abbrev view_at : List ℕ → World → Option Volume
view_at (x ∷ xs) w = none
view_at [] (true, tried) = some (volume released)
view_at [] (false, tried) = none

abbrev get_at : List ℕ → World → Result ℕ Volume
get_at (x ∷ xs) w = err 404
get_at [] (true, tried) = ok (volume released)
get_at [] (false, tried) = err 404

abbrev delete_at : List ℕ → World → World
delete_at (x ∷ xs) w = w
delete_at [] (there, tried) = (false, tried)

abbrev reconciler_api : ReconcilerApi World ℕ
reconciler_api = record {
  get = λ name w. (get_at name w, w);
  delete = λ pv w. (ok tt, delete_at pv.name w);
  list = λ k v w. (ok [], w);
  is_not_found = λ e. true;
  delete_device = λ path w. (err 5, (w.0, path ∷ w.1));
}

abbrev view : World → List ℕ → Option Volume
view w name = view_at name w

abbrev Tried : World → String → Type 0
Tried w path = Memᴰ path w.1

abbrev outcome : Outcome ℕ × World
outcome = (done, (false, "/dev/a" ∷ []))
