-- ===== src/BmcLog/Collector.antt =====
-- bmc-log-collector/log-collector.go, `collectSystemEventLog`. One run for one machine; the own error
-- log of the collector (slog) is left out. The output of the log writer is a list, the newest line
-- first; an error of the writer is only logged.
pub mod Scan
pub mod Again
pub mod Laws
pub mod Frame
use neco_containers.Base.{
  ℕ, suc, zero, String, ◌==◌, Option, none, some, Result, ok, err, List, [], ◌∷◌, Map, lookup,
  insert, ℤ, pos, ltb_ℤ, eqb_ℤ, not, Bool, if◌then◌else◌, on_result, ◌>>◌,
}
use neco_containers.BmcLog.Pointer.{
  LastPointer, Os, check_and_create_pointer_file, read_last_pointer, update_last_pointer,
}

pub record Machine : Type 0 where
  pub serial : String
  pub bmc_ip : String
  pub node_ip : String

-- One entry of the log. `rest` holds the fields that are only copied to the output.
pub record SystemEventLog (D : Type 0) : Type 0 where
  pub create_time : String
  pub id : String
  pub serial : String
  pub node_ip : String
  pub bmc_ip : String
  pub rest : D

-- strconv.Atoi, time.Parse with Unix, the JSON encodings, the error's text and the HTTP request.
pub record Api (E D : Type 0) : Type 0 where
  pub atoi : String → Option ℤ
  pub parse_time : String → Option ℤ
  pub marshal_event : SystemEventLog D → Result E String
  pub unmarshal_response : String → Result E (List (SystemEventLog D))
  pub error_text : E → String
  pub request_to_bmc : String → Result E (String × ℤ)

-- The pointer directory, the lines written with their serials, and the two counters.
pub record World : Type 0 where
  pub files : Map String
  pub written : List (String × String)
  pub request_failed : Map ℕ
  pub request_success : Map ℕ

succ_of : Option ℕ → ℕ
succ_of none = 1
succ_of (some n) = suc n

-- A counter with a label: `WithLabelValues(serial).Inc()`.
unfoldable pub inc : String → Map ℕ → Map ℕ
unfolding succ_of
inc serial m = insert serial (succ_of (lookup serial m)) m

-- []byte of a marshal that failed is empty.
text_or_empty : {E : Type 0} → Result E String → String
text_or_empty (ok s) = s
text_or_empty (err e) = ""

module _ {E D : Type 0} (api : Api E D) (m : Machine) where
  -- The information to identify the node is added.
  unfoldable pub identify : SystemEventLog D → SystemEventLog D
  identify v = record v { serial = m.serial; node_ip = m.node_ip; bmc_ip = m.bmc_ip }

  -- The line that is written for an entry, with its serial.
  unfoldable pub line : SystemEventLog D → String × String
  unfolding text_or_empty identify
  line v = (text_or_empty (api.marshal_event (identify v)), m.serial)

  -- What the loop changes: LastReadId, and the lines.
  abbrev pub Progress : Type 0
  Progress = ℤ × List (String × String)

  -- The body of the loop, for an id that was read. A log that was reset starts again from a low id,
  -- and is told by the time of its first entry.
  unfoldable pub read_entry : Bool → SystemEventLog D → Option ℤ → Progress → Progress
  unfolding line
  read_entry reset v none p = p
  read_entry reset v (some id) p =
      if ltb_ℤ p.0 id then (id, line v ∷ p.1) else if reset then (id, line v ∷ p.1) else p

  -- `for i, v := range slices.Backward(response.Sel)`: the last entry of the list comes first.
  unfoldable pub read_backward : Bool → List (SystemEventLog D) → Progress → Progress
  read_backward reset [] p = p
  read_backward reset (v ∷ vs) p = read_entry reset v (api.atoi v.id) (read_backward reset vs p)

  -- response.Sel[len(response.Sel)-1]
  unfoldable pub last_entry : SystemEventLog D → List (SystemEventLog D) → SystemEventLog D
  last_entry v [] = v
  last_entry v (w ∷ vs) = last_entry w vs

  module _ (os : Os E) where
    -- An error of the update is only logged.
    unfoldable pub save : LastPointer → World → World
    save lptr w = record w { files = (update_last_pointer os lptr m.serial w.files).1 }

    collect_entries : LastPointer → List (SystemEventLog D) → Option ℤ → World → World
    unfolding read_backward save
    collect_entries lptr sel none w = w
    collect_entries lptr sel (some first_create_time) w =
        let reset = not (eqb_ℤ lptr.first_create_time first_create_time) in
        let p : Progress = read_backward reset sel (lptr.last_read_id, w.written) in
        save (record lptr { last_read_id = p.0; first_create_time = first_create_time })
          (record w { written = p.1 })

    collect_response : LastPointer → Result E (List (SystemEventLog D)) → World → World
    unfolding collect_entries last_entry
    collect_response lptr (err e) w = w
    collect_response lptr (ok []) w = w
    collect_response lptr (ok (v ∷ vs)) w =
        collect_entries lptr (v ∷ vs) (api.parse_time (last_entry v vs).create_time) w

    unfoldable pub collect_answer : LastPointer → Result E (String × ℤ) → World → World
    unfolding save collect_response inc
    collect_answer lptr (err e) w =
        save (record lptr { last_http_status_code = pos 0; last_error = api.error_text e })
          (record w { request_failed = inc m.serial w.request_failed })
    collect_answer lptr (ok (body, status)) w =
        if not (eqb_ℤ status (pos 200))
        then save (record lptr { last_http_status_code = status; last_error = "" })
            (record w { request_failed = inc m.serial w.request_failed })
        else collect_response lptr (api.unmarshal_response body)
            (record w { request_success = inc m.serial w.request_success })

    unfoldable pub collect_system_event_log : World → World
    unfolding collect_answer
    collect_system_event_log w =
        let (r, fs) =
          (check_and_create_pointer_file os m.serial >> read_last_pointer os m.serial) w.files in
        let w' = record w { files = fs } in
        on_result r (λ lptr. collect_answer lptr (api.request_to_bmc m.bmc_ip) w') (λ e. w')
