-- ===== src/BmcLog/Cleanup/Laws.antt =====
-- The removal of the pointer files.
use neco_containers.Base.{
  ◌≡◌, refl, String, ◌==◌, eq_iff, Option, none, some, List, [], ◌∷◌, map, Map, lookup,
  lookup-delete, not, ◌&&◌, Bool, true, false, any, contains, arith, if◌then◌else◌, Bool-cases, inl,
  inr, is_some,
}
use neco_containers.BmcLog.Pointer.{Os, remove, read_dir}
use neco_containers.BmcLog.Collector.{Machine, World}
use neco_containers.BmcLog.Cleanup.{
  DirEntry, serials, delete_metrics, remove_file, remove_unknown, entries, after_read_dir,
  delete_ptr_file_disappeared_serial,
}

-- The entry is a file of that name.
abbrev is_file : String → DirEntry → Bool
is_file name f = not f.is_dir && f.name == name

module _ {E : Type 0} (os : Os E) (known : List String) where
  lookup-remove_file :
      (o : Option E) (n name : String) (w : World)
      → ((n == name) && is_some o) ≡ false
      → lookup name (delete_metrics n (remove_file os known o n w)).files
        ≡ (if n == name then none else lookup name w.files)
  unfolding delete_metrics remove_file
  lookup-remove_file none n name w h = lookup-delete n name w.files
  lookup-remove_file (some e) n name w h = ground arith

  lookup-remove_unknown :
      (fs : List DirEntry) (name : String) (w : World)
      → os.fault (remove name) ≡ none
      → lookup name (remove_unknown os known fs w).files
        ≡ (if any (is_file name) fs && not (contains known name) then none else lookup name w.files)
  unfolding remove_unknown
  lookup-remove_unknown [] name w h = ground arith
  lookup-remove_unknown (f ∷ fs) name w h =
      let removed =
        delete_metrics f.name (remove_file os known (os.fault (remove f.name)) f.name w) in
      let possible : ((f.name == name) && is_some (os.fault (remove f.name))) ≡ false =
        elim (Bool-cases (f.name == name)) [
          | inl e ↦ rw ((eq_iff f.name name).0 e, h) (ground arith)
          | inr n ↦ ground arith
        ] in
      ground (
        arith,
        eq_iff f.name name,
        lookup-remove_unknown fs name w h,
        lookup-remove_unknown fs name removed h,
        lookup-remove_file (os.fault (remove f.name)) f.name name w possible,
      )

is_file-dirs :
    (name : String) (dirs : List String)
    → any (is_file name) (map (λ d. record { name = d; is_dir = true }) dirs) ≡ false
is_file-dirs name [] = refl
is_file-dirs name (d ∷ dirs) = is_file-dirs name dirs

is_file-entries :
    (name : String) (files : Map String) (dirs : List String)
    → any (is_file name) (entries files dirs) ≡ is_some (lookup name files)
unfolding entries lookup
is_file-entries name [] dirs = is_file-dirs name dirs
is_file-entries name ((k, v) ∷ files) dirs = ground (arith, is_file-entries name files dirs)

-- When the directory is read, a pointer file is left exactly when its machine is in the list, with
-- its content as it was; a file whose removal fails is not spoken of.
pub lookup-delete_ptr_file_disappeared_serial :
    {E : Type 0} (os : Os E) (dirs : List String) (ms : List Machine) (name : String) (w : World)
    → os.fault read_dir ≡ none
    → os.fault (remove name) ≡ none
    → lookup name (delete_ptr_file_disappeared_serial os dirs ms w).1.files
      ≡ (if contains (serials ms) name then lookup name w.files else none)
unfolding delete_ptr_file_disappeared_serial after_read_dir
lookup-delete_ptr_file_disappeared_serial os dirs ms name w h k = rw h (
    ground (
      arith,
      lookup-remove_unknown os (serials ms) (entries w.files dirs) name w k,
      is_file-entries name w.files dirs,
    ))
