-- ===== src/LocalPv/Volume/Laws.antt =====
-- Volumes that `createPV` writes, against the test for another configuration.
use neco_containers.Base.{
  ◌≡◌, ◌↔◌, true, false, some, String, Map, lookup, map_laws, arith, eq_iff, Bool-cases, inl, inr,
  get_text,
}
use neco_containers.LocalPv.Spec.{PvSpec, is_filesystem}
use neco_containers.LocalPv.Volume.{
  annot_storage_class, annot_volume_mode, annot_fs_type, annot_device_dir, annot_filter,
  spec_annotations, conflicts,
}

-- Two specifications agree in every setting that the annotations record.
pub record SameSettings {R S : Type 0} (s : PvSpec R) (t : PvSpec S) : Type 0 where
  pub storage_class : s.storage_class_name ≡ t.storage_class_name
  pub volume_mode : s.volume_mode ≡ t.volume_mode
  pub fs_type : is_filesystem s.volume_mode ≡ true → s.fs_type ≡ t.fs_type
  pub device_dir : s.device_dir ≡ t.device_dir
  pub filter : s.device_name_filter ≡ t.device_name_filter

module _ {R : Type 0} (s : PvSpec R) (m : Map String) where
  -- What a reader of the written annotations finds.
  record Written : Type 0 where
    storage_class : lookup annot_storage_class (spec_annotations s m) ≡ some s.storage_class_name
    volume_mode : lookup annot_volume_mode (spec_annotations s m) ≡ some s.volume_mode
    fs_type :
        is_filesystem s.volume_mode ≡ true
        → lookup annot_fs_type (spec_annotations s m) ≡ some s.fs_type
    device_dir : lookup annot_device_dir (spec_annotations s m) ≡ some s.device_dir
    filter : lookup annot_filter (spec_annotations s m) ≡ some s.device_name_filter

  written : Written
  unfolding spec_annotations
  written = elim (Bool-cases (is_filesystem s.volume_mode)) [
    | inl e ↦ record {
      storage_class = rw e (simp map_laws);
      volume_mode = rw e (simp map_laws);
      fs_type = λ h. rw e (simp map_laws);
      device_dir = rw e (simp map_laws);
      filter = rw e (simp map_laws);
    }
    | inr e ↦ record {
      storage_class = rw e (simp map_laws);
      volume_mode = rw e (simp map_laws);
      fs_type = λ h. cc;
      device_dir = rw e (simp map_laws);
      filter = rw e (simp map_laws);
    }
  ]

-- The annotations that `createPV` writes for one specification pass the conflict test of another
-- exactly when the two agree in each setting, the file system only in mode Filesystem, whatever
-- annotations the volume had before.
pub conflicts-spec_annotations :
    {R S : Type 0} (s : PvSpec R) (t : PvSpec S) (m : Map String)
    → (conflicts t (spec_annotations s m) ≡ false) ↔ SameSettings s t
unfolding conflicts get_text
conflicts-spec_annotations s t m = (
  (λ h. ground (
    arith,
    written s m,
    eq_iff s.storage_class_name t.storage_class_name,
    eq_iff s.volume_mode t.volume_mode,
    eq_iff s.fs_type t.fs_type,
    eq_iff s.device_dir t.device_dir,
    eq_iff s.device_name_filter t.device_name_filter,
  )),
  (λ h. ground (
    arith,
    written s m,
    eq_iff s.storage_class_name t.storage_class_name,
    eq_iff s.volume_mode t.volume_mode,
    eq_iff s.fs_type t.fs_type,
    eq_iff s.device_dir t.device_dir,
    eq_iff s.device_name_filter t.device_name_filter,
  )),
)
