-- ===== src/LocalPv/Volume.antt =====
-- The PersistentVolumes of a node, from local-pv-provisioner/controllers/device_detector.go: their
-- names, their contents, and the test for volumes of another configuration. A nil map of labels or
-- annotations is the empty map, since the code makes it before it writes and reads both alike.
mod Name
pub mod NameLaws
pub mod Laws
pub use Name.{Names, pv_name}
use neco_containers.Base.{
  ℕ, Bool, true, false, not, ◌&&◌, ◌||◌, List, [], ◌∷◌, Option, none, some, String, ◌==◌, Result,
  ok, err, Exec, Map, lookup, insert, get_text, is_some, if◌then◌else◌, ◌>>=◌, ◌>>◌, pure,
}
use neco_containers.LocalPv.Spec.{PvSpec, is_filesystem}

abbrev pub legacy_label_key : String
legacy_label_key = "local-pv-provisioner.cybozu.com/node"

abbrev annot_node : String
annot_node = "local-pv-provisioner.cybozu.io/node"

abbrev pub annot_pv_spec_config_map : String
annot_pv_spec_config_map = "local-pv-provisioner.cybozu.io/pv-spec-configmap"

abbrev pub annot_storage_class : String
annot_storage_class = "local-pv-provisioner.cybozu.io/storageClassName"

abbrev pub annot_volume_mode : String
annot_volume_mode = "local-pv-provisioner.cybozu.io/volumeMode"

abbrev pub annot_fs_type : String
annot_fs_type = "local-pv-provisioner.cybozu.io/fsType"

abbrev pub annot_device_dir : String
annot_device_dir = "local-pv-provisioner.cybozu.io/deviceDir"

abbrev pub annot_filter : String
annot_filter = "local-pv-provisioner.cybozu.io/deviceNameFilter"

-- Device; the capacity is an int64 that is never negative.
pub record Device : Type 0 where
  pub path : String
  pub capacity_bytes : ℕ

pub record Node : Type 0 where
  pub name : String
  pub annotations : Map String

pub data AccessMode : Type 0 where
  read_write_once read_only_many read_write_many read_write_once_pod : AccessMode

pub data VolumeMode : Type 0 where
  block filesystem : VolumeMode

pub data ReclaimPolicy : Type 0 where
  recycle remove retain : ReclaimPolicy

pub data Phase : Type 0 where
  pending available bound released failed : Phase

-- A required node affinity: the hostname label is in the list.
pub record HostnameIn : Type 0 where
  pub values : List String

pub record LocalSource : Type 0 where
  pub path : String
  pub fs_type : Option String

pub record Volume : Type 0 where
  pub name : List ℕ
  pub labels : Map String
  pub annotations : Map String
  pub access_modes : List AccessMode
  pub capacity_storage : Option ℕ
  pub node_affinity : Option HostnameIn
  pub reclaim_policy : Option ReclaimPolicy
  pub source : Option LocalSource
  pub storage_class_name : String
  pub volume_mode : Option VolumeMode
  pub owner : Option String
  pub phase : Phase

module _ {Regex : Type 0} where
  -- The test of `hasAnnotsSetByAnotherConfiguration` on the annotations of one volume.
  unfoldable pub conflicts : PvSpec Regex → Map String → Bool
  conflicts s annot =
      let mode = get_text annot_volume_mode annot in
      not (is_some (lookup annot_storage_class annot))
      || (not (is_some (lookup annot_volume_mode annot))
          || (is_filesystem mode && not (is_some (lookup annot_fs_type annot))
              || (not (is_some (lookup annot_device_dir annot))
                  || (not (is_some (lookup annot_filter annot))
                      || (not (get_text annot_storage_class annot == s.storage_class_name)
                          || (not (mode == s.volume_mode)
                              || (is_filesystem mode
                                    && not (get_text annot_fs_type annot == s.fs_type)
                                  || (not (get_text annot_device_dir annot == s.device_dir)
                                      || not (
                                          get_text annot_filter annot
                                          == s.device_name_filter)))))))))

  unfoldable pub has_annots_set_by_another_configuration : PvSpec Regex → List Volume → Bool
  has_annots_set_by_another_configuration s [] = false
  has_annots_set_by_another_configuration s (pv ∷ pvs) =
      let rest = has_annots_set_by_another_configuration s pvs in
      if conflicts s pv.annotations then true else rest

  unfoldable pub spec_annotations : PvSpec Regex → Map String → Map String
  spec_annotations s annot =
      let annot1 =
        insert annot_volume_mode s.volume_mode
          (insert annot_storage_class s.storage_class_name annot) in
      let annot2 =
        if is_filesystem s.volume_mode then insert annot_fs_type s.fs_type annot1 else annot1 in
      insert annot_filter s.device_name_filter (insert annot_device_dir s.device_dir annot2)

  -- The closure that `createPV` passes to CreateOrUpdate, up to its last line.
  unfoldable pub set_volume : String → Device → Node → PvSpec Regex → Volume → Volume
  unfolding spec_annotations
  set_volume node_name dev node s pv = record pv {
    labels = insert annot_node node.name (insert legacy_label_key node.name pv.labels);
    annotations = spec_annotations s pv.annotations;
    access_modes = read_write_once ∷ [];
    capacity_storage = some dev.capacity_bytes;
    node_affinity = some (record { values = node_name ∷ [] });
    reclaim_policy = some retain;
    source = some (record {
      path = dev.path;
      fs_type = if is_filesystem s.volume_mode then some s.fs_type else none;
    });
    storage_class_name = s.storage_class_name;
    volume_mode = some (if is_filesystem s.volume_mode then filesystem else block);
  }

-- controllerutil.OperationResult
pub data Operation : Type 0 where
  nothing_done created updated : Operation

-- What `createPV` calls: ctrl.CreateOrUpdate, which takes the volume of a name, as it is stored or
-- new, through a function, and ctrl.SetControllerReference.
pub record VolumeApi (W E : Type 0) : Type 0 where
  pub create_or_update : List ℕ → (Volume → Result E Volume) → Exec W E Operation
  pub set_controller_reference : Node → Volume → Result E Volume

module _ {W E Regex : Type 0} (api : VolumeApi W E) (names : Names) (node_name : String) where
  unfoldable pub create_pv : Device → Node → PvSpec Regex → Exec W E (Unit {0})
  create_pv dev node s = do
    api.create_or_update (pv_name names node_name dev.path)
        (λ pv. api.set_controller_reference node (set_volume node_name dev node s pv))
    pure tt
