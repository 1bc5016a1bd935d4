-- ===== src/BmcLog/Collector/Laws.antt =====
-- Two runs for a machine whose BMC gives the same answer.
use neco_containers.Base.{
  ◌≡◌, refl, sym, ap, ap₂, ◌∙◌, String, none, some, ok, List, ◌∷◌, lookup, not, false, arith, ℤ,
  pos, eqb_ℤ,
}
use neco_containers.BmcLog.Pointer.{LastPointer, Os, Call}
use neco_containers.BmcLog.Pointer.Laws.{read_pointer_stored, lookup-update_last_pointer}
use neco_containers.BmcLog.Collector.{
  Machine, SystemEventLog, Api, World, Progress, inc, save, read_backward, last_entry,
  collect_entries, collect_response, collect_answer, collect_system_event_log,
}
use neco_containers.BmcLog.Collector.Scan.{NewestFirst}
use neco_containers.BmcLog.Collector.Again.{read_backward_again}

module _ {E D : Type 0} (api : Api E D) (m : Machine) (os : Os E)
    (faultless : (c : Call) → os.fault c ≡ none) (body : String) (v : SystemEventLog D)
    (vs : List (SystemEventLog D)) (first_create_time : ℤ)
    (answers : api.request_to_bmc m.bmc_ip ≡ ok (body, pos 200))
    (decodes : api.unmarshal_response body ≡ ok (v ∷ vs))
    (dated : api.parse_time (last_entry api m v vs).create_time ≡ some first_create_time) where
  -- What the loop makes of a pointer and the lines.
  abbrev progress : LastPointer → World → Progress api m
  progress lptr w =
      read_backward api m (not (eqb_ℤ lptr.first_create_time first_create_time)) (v ∷ vs)
        (lptr.last_read_id, w.written)

  abbrev next_pointer : LastPointer → World → LastPointer
  next_pointer lptr w = record lptr {
    last_read_id = (progress lptr w).0;
    first_create_time = first_create_time;
  }

  abbrev scraped : LastPointer → World → World
  scraped lptr w = record w {
    written = (progress lptr w).1;
    request_success = inc m.serial w.request_success;
  }

  module _ (lptr : LastPointer) (w : World) (text : String)
      (stored : lookup m.serial w.files ≡ some text)
      (decodes_text : os.unmarshal text ≡ ok lptr) where
    collect-stored :
        collect_system_event_log api m os w ≡ save api m os (next_pointer lptr w) (scraped lptr w)
    unfolding collect_system_event_log collect_answer collect_response collect_entries
    collect-stored =
        rw
          (read_pointer_stored os faultless m.serial lptr w.files text stored decodes_text, answers)
          (rw decodes (rw dated refl))

    lookup-collect :
        (text' : String)
        → os.marshal (next_pointer lptr w) ≡ ok text'
        → lookup m.serial (collect_system_event_log api m os w).files ≡ some text'
    unfolding save
    lookup-collect text' e =
        rw collect-stored
          (lookup-update_last_pointer os faultless m.serial (next_pointer lptr w) w.files text' e)

    written-collect : (collect_system_event_log api m os w).written ≡ (progress lptr w).1
    unfolding save
    written-collect = rw collect-stored refl

  module _ (lptr : LastPointer) (w : World) (text : String)
      (stored : lookup m.serial w.files ≡ some text)
      (decodes_text : os.unmarshal text ≡ ok lptr) where
    -- No line is written twice: when no call of the operating system fails, the pointer file can be
    -- read, and the pointer that the first run stores is read back from its text, then a second run
    -- to which the BMC gives the same answer, with the ids newest first, writes nothing, whether or
    -- not the log had been reset before the first.
    pub written-collect-collect :
        (text' : String)
        → os.marshal (next_pointer lptr w) ≡ ok text'
        → os.unmarshal text' ≡ ok (next_pointer lptr w)
        → NewestFirst api m (v ∷ vs)
        → (collect_system_event_log api m os (collect_system_event_log api m os w)).written
          ≡ (collect_system_event_log api m os w).written
    written-collect-collect text' e d n =
        let w' = collect_system_event_log api m os w in
        let p = progress lptr w in
        let first = written-collect lptr w text stored decodes_text in
        let reset = not (eqb_ℤ lptr.first_create_time first_create_time) in
        let same : not (eqb_ℤ first_create_time first_create_time) ≡ false = ground arith in
        written-collect (next_pointer lptr w) w' text'
          (lookup-collect lptr w text stored decodes_text text' e) d
        ∙ ap₂ (λ b out. (read_backward api m b (v ∷ vs) (p.0, out)).1) same first
        ∙ ap (λ (x : Progress api m). x.1)
            (read_backward_again api m reset (v ∷ vs) (lptr.last_read_id, w.written) n)
        ∙ sym first
