-- ===== src/BmcLog/Cleanup.antt =====
-- bmc-log-collector/log-pointer.go, `deletePtrFileDisappearedSerial`, with `deleteMetrics` of
-- metrics.go and one tick of `doLogScrapingLoop` of main.go. The machines of a tick are collected one
-- after the other here; in the source each has its own goroutine.
pub mod Laws
use neco_containers.Base.{
  ℕ, String, Option, none, some, Result, ok, err, List, [], ◌∷◌, ◌++◌, map, Map, delete, not, Bool,
  true, false, contains, if◌then◌else◌,
}
use neco_containers.BmcLog.Pointer.{Os, Call, remove, read_dir}
use neco_containers.BmcLog.Collector.{Machine, World, Api, collect_system_event_log}

pub record DirEntry : Type 0 where
  pub name : String
  pub is_dir : Bool

unfoldable pub serials : List Machine → List String
serials ms = map (λ (m : Machine). m.serial) ms

unfoldable pub delete_metrics : String → World → World
delete_metrics serial w = record w {
  request_success = delete serial w.request_success;
  request_failed = delete serial w.request_failed;
}

module _ {E : Type 0} (os : Os E) (known : List String) where
  -- os.Remove, whose error is only logged.
  remove_file : Option E → String → World → World
  remove_file none name w = record w { files = delete name w.files }
  remove_file (some e) name w = w

  -- The loop over the entries of the directory.
  unfoldable pub remove_unknown : List DirEntry → World → World
  unfolding remove_file delete_metrics
  remove_unknown [] w = w
  remove_unknown (f ∷ fs) w =
      let skipped = remove_unknown fs w in
      let removed =
        remove_unknown fs
          (delete_metrics f.name (remove_file (os.fault (remove f.name)) f.name w)) in
      if f.is_dir then skipped else if not (contains known f.name) then removed else skipped

-- The names of the files, and then the sub-directories.
unfoldable pub entries : Map String → List String → List DirEntry
entries files dirs =
    map (λ (f : String × String). record { name = f.0; is_dir = false }) files
    ++ map (λ d. record { name = d; is_dir = true }) dirs

module _ {E : Type 0} (os : Os E) (dirs : List String) (ms : List Machine) where
  after_read_dir : Option E → World → Result E (Unit {0}) × World
  unfolding remove_unknown serials entries
  after_read_dir none w = (ok tt, remove_unknown os (serials ms) (entries w.files dirs) w)
  after_read_dir (some e) w = (err e, w)

  unfoldable pub delete_ptr_file_disappeared_serial : World → Result E (Unit {0}) × World
  unfolding after_read_dir
  delete_ptr_file_disappeared_serial w = after_read_dir (os.fault read_dir) w

module _ {E D : Type 0} (api : Api E D) (os : Os E) (dirs : List String) where
  unfoldable pub collect_all : List Machine → World → World
  collect_all [] w = w
  collect_all (m ∷ ms) w = collect_all ms (collect_system_event_log api m os w)

  -- One tick: no list ends the loop.
  unfoldable pub tick : Result E (List Machine) → World → Option World
  unfolding collect_all
  tick (err e) w = none
  tick (ok ms) w = some (delete_ptr_file_disappeared_serial os dirs ms (collect_all ms w)).1
