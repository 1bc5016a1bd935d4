-- ===== src/BmcLog/Collector/Frame.antt =====
-- A run for one machine leaves the files of the others alone.
use neco_containers.Base.{
  ◌≡◌, refl, ◌∙◌, String, ◌==◌, Option, none, some, Result, ok, err, List, [], ◌∷◌, lookup, not,
  false, ℤ, pos, eqb_ℤ, ◌>>◌, on_result-lift, if-lift,
}
use neco_containers.BmcLog.Pointer.{
  LastPointer, Os, tmp_path, check_and_create_pointer_file, read_last_pointer,
}
use neco_containers.BmcLog.Pointer.Frame.{update_last_pointer-Frames, read_pointer-Frames}
use neco_containers.BmcLog.Collector.{
  Machine, SystemEventLog, Api, World, save, inc, collect_entries, collect_response, collect_answer,
  collect_system_event_log, last_entry, read_backward,
}

module _ {E D : Type 0} (api : Api E D) (m : Machine) (os : Os E) (q : String)
    (n : (m.serial == q) ≡ false) (t : (tmp_path m.serial == q) ≡ false) where
  abbrev Keeps : World → World → Type 0
  Keeps w w' = lookup q w'.files ≡ lookup q w.files

  save-Keeps : (lptr : LastPointer) (w : World) → Keeps w (save api m os lptr w)
  unfolding save
  save-Keeps lptr w = update_last_pointer-Frames os q m.serial n t lptr w.files

  collect_entries-Keeps :
      (lptr : LastPointer) (sel : List (SystemEventLog D)) (o : Option ℤ) (w : World)
      → Keeps w (collect_entries api m os lptr sel o w)
  unfolding collect_entries
  collect_entries-Keeps lptr sel none w = refl
  collect_entries-Keeps lptr sel (some fct) w =
      let p =
        read_backward api m (not (eqb_ℤ lptr.first_create_time fct)) sel
          (lptr.last_read_id, w.written) in
      save-Keeps (record lptr { last_read_id = p.0; first_create_time = fct })
        (record w { written = p.1 })

  collect_response-Keeps :
      (lptr : LastPointer) (r : Result E (List (SystemEventLog D))) (w : World)
      → Keeps w (collect_response api m os lptr r w)
  unfolding collect_response
  collect_response-Keeps lptr (err e) w = refl
  collect_response-Keeps lptr (ok []) w = refl
  collect_response-Keeps lptr (ok (v ∷ vs)) w =
      collect_entries-Keeps lptr (v ∷ vs) (api.parse_time (last_entry api m v vs).create_time) w

  collect_answer-Keeps :
      (lptr : LastPointer) (r : Result E (String × ℤ)) (w : World)
      → Keeps w (collect_answer api m os lptr r w)
  unfolding collect_answer
  collect_answer-Keeps lptr (err e) w =
      save-Keeps (record lptr { last_http_status_code = pos 0; last_error = api.error_text e })
        (record w { request_failed = inc m.serial w.request_failed })
  collect_answer-Keeps lptr (ok (body, status)) w =
      let failed : World = record w { request_failed = inc m.serial w.request_failed } in
      let success : World = record w { request_success = inc m.serial w.request_success } in
      let kept : LastPointer = record lptr { last_http_status_code = status; last_error = "" } in
      if-lift (Keeps w) (not (eqb_ℤ status (pos 200))) (save api m os kept failed)
        (collect_response api m os lptr (api.unmarshal_response body) success)
        (λ h. save-Keeps kept failed)
        (λ h. collect_response-Keeps lptr (api.unmarshal_response body) success)

  -- A run for one machine changes no file but that machine's pointer file and its temporary file,
  -- on every branch.
  pub collect_system_event_log-Keeps :
      (w : World) → lookup q (collect_system_event_log api m os w).files ≡ lookup q w.files
  unfolding collect_system_event_log
  collect_system_event_log-Keeps w =
      let x =
        (check_and_create_pointer_file os m.serial >> read_last_pointer os m.serial) w.files in
      let w' : World = record w { files = x.1 } in
      let read = read_pointer-Frames os q m.serial n t w.files in
      on_result-lift (Keeps w) x.0
        (λ lptr. collect_answer api m os lptr (api.request_to_bmc m.bmc_ip) w') (λ e. w')
        (λ lptr h. collect_answer-Keeps lptr (api.request_to_bmc m.bmc_ip) w' ∙ read) (λ e h. read)
