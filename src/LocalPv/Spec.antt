-- ===== src/LocalPv/Spec.antt =====
-- The ConfigMap with the specification of volumes, from
-- local-pv-provisioner/controllers/device_detector.go.
pub mod Laws
use neco_containers.Base.{
  ◌≡◌, Bool, not, ◌&&◌, ◌||◌, List, [], ◌∷◌, Option, none, some, String, ◌==◌, Result, ok, err, Map,
  lookup, get_text, or_empty, is_some, contains, if◌then◌else◌,
}

-- What the code asks of the platform: filepath.IsAbs, fs.Stat with Mode().IsDir(), and
-- regexp.Compile. `none` is an error.
pub record Platform (Regex : Type 0) : Type 0 where
  pub is_abs : String → Bool
  pub stat_is_dir : String → Option Bool
  pub compile : String → Option Regex

pub record PvSpec (Regex : Type 0) : Type 0 where
  pub storage_class_name : String
  pub volume_mode : String
  pub fs_type : String
  pub device_dir : String
  pub device_name_filter : String
  pub device_name_filter_compiled : Regex

pub data SpecError : Type 0 where
  value_not_found bad_volume_mode bad_fs_type not_absolute no_status not_directory bad_filter :
      SpecError

abbrev pub storage_class_key : String
storage_class_key = "storageClassName"

abbrev pub volume_mode_key : String
volume_mode_key = "volumeMode"

abbrev pub fs_type_key : String
fs_type_key = "fsType"

abbrev pub device_dir_key : String
device_dir_key = "deviceDir"

abbrev pub filter_key : String
filter_key = "deviceNameFilter"

abbrev pub supported_fs_types : List String
supported_fs_types = "ext4" ∷ "xfs" ∷ "btrfs" ∷ []

unfoldable pub is_filesystem : String → Bool
is_filesystem volume_mode = volume_mode == "Filesystem"

module _ {Regex : Type 0} (p : Platform Regex) where
  -- The checks of the directory and of the filter, with the specification that they complete.
  check_device : (Regex → PvSpec Regex) → String → String → Result SpecError (PvSpec Regex)
  check_device make dir filter = elim (p.stat_is_dir dir) [
    | none ↦ err no_status
    | some is_dir ↦
        if not is_dir
        then err not_directory
        else elim (p.compile filter) [ none ↦ err bad_filter | some compiled ↦ ok (make compiled) ]
  ]

  -- The rest of the function, from the five reads of the ConfigMap.
  pub check_values :
      Option String
      → Option String
      → Option String
      → Option String
      → Option String
      → Result SpecError (PvSpec Regex)
  unfolding check_device
  check_values storage_class volume_mode fs_type device_dir device_name_filter =
      let mode = or_empty volume_mode in
      let fs = or_empty fs_type in
      let dir = or_empty device_dir in
      let filter = or_empty device_name_filter in
      if not (is_some storage_class)
        || (not (is_some volume_mode)
            || (is_filesystem mode && not (is_some fs_type)
                || (not (is_some device_dir) || not (is_some device_name_filter))))
      then err value_not_found
      else if not (is_filesystem mode) && not (mode == "Block")
      then err bad_volume_mode
      else if is_filesystem mode && not (contains supported_fs_types fs)
      then err bad_fs_type
      else if not (p.is_abs dir)
      then err not_absolute
      else check_device
          (λ compiled. record {
            storage_class_name = or_empty storage_class;
            volume_mode = mode;
            fs_type = fs;
            device_dir = dir;
            device_name_filter = filter;
            device_name_filter_compiled = compiled;
          })
          dir filter

  unfoldable pub parse_pv_spec_config_map : Map String → Result SpecError (PvSpec Regex)
  unfolding check_values
  parse_pv_spec_config_map cm =
      check_values (lookup storage_class_key cm) (lookup volume_mode_key cm) (lookup fs_type_key cm)
        (lookup device_dir_key cm) (lookup filter_key cm)
