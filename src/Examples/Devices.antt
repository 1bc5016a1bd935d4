-- ===== src/Examples/Devices.antt =====
-- The devices of local-pv-provisioner: a disk in memory, a directory, and a ConfigMap.
use mathlib.Core.List.{Memᴰ}
use neco_containers.Base.{
  ℕ, ◌+◌, ◌*◌, ◌≡◌, refl, ◌↔◌, inl, inr, Bool, true, false, ◌&&◌, List, [], ◌∷◌, some, String, ◌==◌,
  ok, Map, leb, ltb, arith, if◌then◌else◌,
}
use neco_containers.LocalPv.Deleter.{FileOps, FillDeleter, fill, fill_labels, delete}
use neco_containers.LocalPv.Deleter.Wrap.{fill_from, fill-eq-fill_from}
use neco_containers.LocalPv.Deleter.Content.{View, IsFile}
use neco_containers.LocalPv.Deleter.Laws.{delete-zero, delete-Outside}
use neco_containers.LocalPv.Spec.{Platform, PvSpec, parse_pv_spec_config_map}
use neco_containers.LocalPv.Spec.Laws.{IsSpecOf, parse_pv_spec_config_map_iff}
use neco_containers.LocalPv.Volume.{Names, conflicts, spec_annotations}
use neco_containers.LocalPv.Volume.Laws.{SameSettings, conflicts-spec_annotations}
use neco_containers.LocalPv.Walk.{
  Visit, WalkApi, Found, list_local_devices, walk, visit_info, get_capacity_bytes,
}
use neco_containers.LocalPv.Walk.Laws.{count, paths, picked, count-list_local_devices}

-- A disk of 4 bytes with an open file.
record Disk : Type 0 where
  offset : ℕ
  byte_at : ℕ → ℕ

abbrev size : ℕ
size = 4

abbrev write_zeros : ℕ → Disk → Disk
write_zeros n w = record {
  offset = w.offset + n;
  byte_at = λ x. if leb w.offset x && ltb x (w.offset + n) then 0 else w.byte_at x;
}

abbrev disk_file : FileOps Disk ℕ
disk_file = record {
  open_file = λ path w. (ok tt, w);
  seek_end = λ w. (ok size, record w { offset = size });
  seek_start = λ p w. (ok tt, record w { offset = p });
  write = λ n w. (ok tt, write_zeros n w);
  sync = λ w. (ok tt, w);
}

abbrev view : View Disk
view = record { size = λ w. size; offset = λ w. w.offset; byte_at = λ w. w.byte_at }

disk_file-IsFile : IsFile disk_file view
disk_file-IsFile = record {
  open_same = λ path w. record { size = refl; bytes = λ x. refl };
  end_same = λ w. record { size = refl; bytes = λ x. refl };
  end_size = λ w. refl;
  start_same = λ p w. record { size = refl; bytes = λ x. refl };
  start_offset = λ p w e. refl;
  write_size = λ n w h. refl;
  write_offset = λ n w h. refl;
  write_below = λ n w x h. ground arith;
  write_above = λ n w x h. ground arith;
  write_zero = λ n w x e h k. ground arith;
  sync_same = λ w. record { size = refl; bytes = λ x. refl };
}

abbrev deleter : FillDeleter
deleter = record { fill_block_size = 1; fill_count = 2 }

abbrev used : Disk
used = record { offset = 0; byte_at = λ x. 255 }

fill-eq-fill_from_example : fill disk_file 2 1 0 size 1 ≡ fill_from disk_file 2 (0 + 1 * 1) size 1
fill-eq-fill_from_example = fill-eq-fill_from disk_file 2 1 0 size 1 (omega arith) (omega arith)

delete-zero_example : (delete disk_file deleter "/dev/a" used).1.byte_at 1 ≡ 0
unfolding delete fill_labels fill
delete-zero_example =
    delete-zero disk_file view disk_file-IsFile deleter "/dev/a" used (omega arith) {p = 0} 1 refl
      (Memᴰ.head refl) (omega arith) (omega arith) (omega arith)

delete-Outside_example : ((delete disk_file deleter "/dev/a" used).1.byte_at 3 ≡ 255) × (size ≡ 4)
delete-Outside_example =
    delete-Outside disk_file view disk_file-IsFile deleter "/dev/a" used (omega arith) 3 (
      inr (omega arith),
      (inl (omega arith), (inl (omega arith), (inl (omega arith), (inl (omega arith), tt)))),
    )

abbrev platform : Platform String
platform = record { is_abs = λ d. true; stat_is_dir = λ d. some true; compile = λ f. some f }

abbrev spec : PvSpec String
spec = record {
  storage_class_name = "local";
  volume_mode = "Block";
  fs_type = "";
  device_dir = "/dev/disk";
  device_name_filter = "ssd";
  device_name_filter_compiled = "ssd";
}

abbrev config_map : Map String
config_map =
    ("storageClassName", "local")
    ∷ ("volumeMode", "Block")
    ∷ ("deviceDir", "/dev/disk")
    ∷ ("deviceNameFilter", "ssd")
    ∷ []

parse_pv_spec_config_map_iff_example :
    (parse_pv_spec_config_map platform config_map ≡ ok spec) ↔ IsSpecOf platform config_map spec
parse_pv_spec_config_map_iff_example = parse_pv_spec_config_map_iff platform spec config_map

conflicts-spec_annotations_example :
    (conflicts spec (spec_annotations spec []) ≡ false) ↔ SameSettings spec spec
conflicts-spec_annotations_example = conflicts-spec_annotations spec spec []

abbrev names : Names
names = record { base = λ p. p; codes = λ s. 65 ∷ 32 ∷ 32 ∷ [] }

abbrev visits : List (Visit ℕ)
visits =
    record { path = "/d"; info = ok true }
    ∷ record { path = "/d/ssd"; info = ok false }
    ∷ record { path = "/d/hdd"; info = ok false }
    ∷ []

abbrev walks : WalkApi (Unit {0}) ℕ
walks = record {
  visits = λ dir w. visits;
  open_file = λ p w. (ok tt, w);
  seek_end = λ w. (ok 512, w);
}

abbrev is_ssd : String → Bool
is_ssd s = s == "/d/ssd"

abbrev found : Found
found = record { devs = record { path = "/d/ssd"; capacity_bytes = 512 } ∷ []; err_devs = [] }

count-list_local_devices_example :
    count "/d/ssd" (paths found.devs) + count "/d/ssd" (paths found.err_devs)
    ≡ count "/d/ssd" (picked walks (λ p. p) is_ssd visits)
unfolding list_local_devices walk visit_info get_capacity_bytes
count-list_local_devices_example =
    count-list_local_devices walks (λ p. p) is_ssd "/d/ssd" "/d" tt {found = found} refl
