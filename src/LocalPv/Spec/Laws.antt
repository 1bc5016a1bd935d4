-- ===== src/LocalPv/Spec/Laws.antt =====
-- Which ConfigMaps `parsePVSpecConfigMap` accepts.
use neco_containers.Base.{
  ◌≡◌, ◌⊎◌, ◌↔◌, true, some, String, ok, Map, lookup, contains, or_empty, none, Option, arith,
  eq_iff,
}
use neco_containers.LocalPv.Spec.{
  Platform, PvSpec, storage_class_key, volume_mode_key, fs_type_key, device_dir_key, filter_key,
  supported_fs_types, is_filesystem, check_values, parse_pv_spec_config_map,
}

-- The values, read from a ConfigMap, are those of the specification `s`, and it is usable.
pub record IsReadAs {Regex : Type 0} (p : Platform Regex) (c m t d f : Option String)
    (s : PvSpec Regex) : Type 0 where
  pub storage_class : c ≡ some s.storage_class_name
  pub volume_mode : m ≡ some s.volume_mode
  pub fs_type : s.fs_type ≡ or_empty t
  pub device_dir : d ≡ some s.device_dir
  pub filter : f ≡ some s.device_name_filter
  pub mode : (is_filesystem s.volume_mode ≡ true) ⊎ (s.volume_mode ≡ "Block")
  pub fs_given : is_filesystem s.volume_mode ≡ true → t ≡ some s.fs_type
  pub fs_supported :
      is_filesystem s.volume_mode ≡ true → contains supported_fs_types s.fs_type ≡ true
  pub absolute : p.is_abs s.device_dir ≡ true
  pub directory : p.stat_is_dir s.device_dir ≡ some true
  pub compiled : p.compile s.device_name_filter ≡ some s.device_name_filter_compiled

abbrev pub IsSpecOf : {Regex : Type 0} → Platform Regex → Map String → PvSpec Regex → Type 0
IsSpecOf p cm s =
    IsReadAs p (lookup storage_class_key cm) (lookup volume_mode_key cm) (lookup fs_type_key cm)
      (lookup device_dir_key cm) (lookup filter_key cm) s

module _ {Regex : Type 0} (p : Platform Regex) (s : PvSpec Regex) where
  check_values-IsReadAs :
      (c m t d f : Option String) → check_values p c m t d f ≡ ok s → IsReadAs p c m t d f s
  unfolding check_values
  check_values-IsReadAs none m t d f h = cc
  check_values-IsReadAs (some c) none t d f h = cc
  check_values-IsReadAs (some c) (some m) t none f h = ground arith
  check_values-IsReadAs (some c) (some m) t (some d) none h = ground arith
  check_values-IsReadAs (some c) (some m) none (some d) (some f) h =
      ground (arith, eq_iff m "Block")
  check_values-IsReadAs (some c) (some m) (some t) (some d) (some f) h =
      ground (arith, eq_iff m "Block")

  IsReadAs-check_values :
      (c m t d f : Option String) → IsReadAs p c m t d f s → check_values p c m t d f ≡ ok s
  unfolding check_values
  IsReadAs-check_values none m t d f h = cc h.storage_class
  IsReadAs-check_values (some c) none t d f h = cc h.volume_mode
  IsReadAs-check_values (some c) (some m) t none f h = cc h.device_dir
  IsReadAs-check_values (some c) (some m) t (some d) none h = cc h.filter
  IsReadAs-check_values (some c) (some m) none (some d) (some f) h =
      ground (arith, eq_iff m "Block")
  IsReadAs-check_values (some c) (some m) (some t) (some d) (some f) h =
      ground (arith, eq_iff m "Block")

  -- `parsePVSpecConfigMap` returns a specification exactly when each required value is there and
  -- is the one in the specification, the mode is Filesystem with a supported file system or Block,
  -- the device directory is an absolute path to a directory, and the filter compiles.
  pub parse_pv_spec_config_map_iff :
      (cm : Map String) → (parse_pv_spec_config_map p cm ≡ ok s) ↔ IsSpecOf p cm s
  unfolding parse_pv_spec_config_map
  parse_pv_spec_config_map_iff cm =
      (check_values-IsReadAs _ _ _ _ _, IsReadAs-check_values _ _ _ _ _)
