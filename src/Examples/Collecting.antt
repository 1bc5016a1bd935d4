-- ===== src/Examples/Collecting.antt =====
-- bmc-log-collector, for one machine.
use neco_containers.Base.{
  ℕ, ◌≡◌, refl, List, [], ◌∷◌, none, some, String, ◌==◌, ok, lookup, pos, arith, eqb_ℤ,
  if◌then◌else◌,
}
use neco_containers.BmcLog.Pointer.{LastPointer, zero_pointer, Os, Call, update_last_pointer}
use neco_containers.BmcLog.Pointer.Laws.{Updates, update_last_pointer_atomic}
use neco_containers.BmcLog.Collector.{
  Machine, SystemEventLog, Api, World, read_backward, read_entry, collect_system_event_log,
}
use neco_containers.BmcLog.Collector.Scan.{NewestFirst}
use neco_containers.BmcLog.Collector.Laws.{written-collect-collect}
use neco_containers.BmcLog.Collector.Frame.{collect_system_event_log-Keeps}
use neco_containers.BmcLog.Cleanup.{delete_ptr_file_disappeared_serial, serials}
use neco_containers.BmcLog.Cleanup.Laws.{lookup-delete_ptr_file_disappeared_serial}

-- A pointer is given by its time alone: the rest is what the runs below leave.
abbrev old_pointer : LastPointer
old_pointer = zero_pointer

-- A codec for the pointers that have a text.
abbrev broken_disk : Os ℕ
broken_disk = record {
  fault = λ c. elim c [ Call.sync p ↦ some 5 | _ ↦ none ];
  not_exist = λ p. 2;
  marshal = λ l. ok "{}";
  unmarshal = λ s. ok zero_pointer;
}

update_last_pointer_atomic_example :
    Updates broken_disk old_pointer "m1"
      (("m1", "{old}") ∷ [])
      (update_last_pointer broken_disk old_pointer "m1" (("m1", "{old}") ∷ []))
update_last_pointer_atomic_example =
    update_last_pointer_atomic broken_disk old_pointer "m1" (("m1", "{old}") ∷ [])

abbrev disk : Os ℕ
disk = record broken_disk { fault = λ c. none }

abbrev machine : Machine
machine = record { serial = "m1"; bmc_ip = "10.1.0.1"; node_ip = "10.0.0.1" }

abbrev event : String → SystemEventLog (Unit {0})
event i = record { create_time = "t"; id = i; serial = ""; node_ip = ""; bmc_ip = ""; rest = tt }

-- The newest entry comes first.
abbrev log : List (SystemEventLog (Unit {0}))
log = event "2" ∷ event "1" ∷ []

abbrev api : Api ℕ (Unit {0})
api = record {
  atoi = λ s. if s == "1" then some (pos 1) else if s == "2" then some (pos 2) else none;
  parse_time = λ s. some (pos 0);
  marshal_event = λ v. ok v.id;
  unmarshal_response = λ s. ok log;
  error_text = λ e. "error";
  request_to_bmc = λ ip. ok ("body", pos 200);
}

log-NewestFirst : NewestFirst api machine log
log-NewestFirst = ((omega arith, tt), (tt, tt))

abbrev world : World
world = record {
  files = ("m1", "{}") ∷ ("m0", "{}") ∷ [];
  written = [];
  request_failed = [];
  request_success = [];
}

collect_system_event_log-Keeps_example :
    lookup "m0" (collect_system_event_log api machine disk world).files ≡ some "{}"
unfolding lookup
collect_system_event_log-Keeps_example =
    collect_system_event_log-Keeps api machine disk "m0" refl refl world

lookup-delete_ptr_file_disappeared_serial_example :
    lookup "m0" (delete_ptr_file_disappeared_serial disk [] (machine ∷ []) world).1.files ≡ none
unfolding serials
lookup-delete_ptr_file_disappeared_serial_example =
    lookup-delete_ptr_file_disappeared_serial disk [] (machine ∷ []) "m0" world refl refl

-- What the first run stores.
abbrev new_pointer : LastPointer
new_pointer = record zero_pointer { last_read_id = pos 2 }

abbrev good_disk : Os ℕ
good_disk = record {
  fault = λ c. none;
  not_exist = λ p. 2;
  marshal = λ l. if eqb_ℤ l.last_read_id (pos 2) then ok "{2}" else ok "{}";
  unmarshal = λ s. if s == "{2}" then ok new_pointer else ok zero_pointer;
}

written-collect-collect_example :
    (collect_system_event_log api machine good_disk
      (collect_system_event_log api machine good_disk world)).written
    ≡ (collect_system_event_log api machine good_disk world).written
unfolding lookup read_backward read_entry
written-collect-collect_example =
    written-collect-collect api machine good_disk (λ c. refl) "body" (event "2") (event "1" ∷ [])
      (pos 0) refl refl refl zero_pointer world "{}" refl refl "{2}" refl refl log-NewestFirst
