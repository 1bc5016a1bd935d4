-- ===== src/Examples/Exporting.antt =====
-- neco-exporter, at a collector of one metric beside another collector, and at three interrupts.
use neco_containers.Base.{
  Option, insert, delete, Option-cases, inl, inr, some_inv, arith, ap, ◌≢◌, ℕ, ◌≡◌, refl, String,
  ◌==◌, true, false, none, some, Result, ok, err, on_result, List, [], ◌∷◌, Map, lookup, contains,
  is_some, pos, if◌then◌else◌,
}
use neco_containers.NecoExporter.Scrape.{
  Metric, Slot, Call, set, unregister, run, perform, calls_of, goroutine, collected, report, finish,
  name_of, after_wait, set_states, set_leader,
}
use neco_containers.NecoExporter.Name.{build_metric_name, label_text}
use neco_containers.NecoExporter.Labels.{Codes, security_labels_to_prom_labels}
use neco_containers.NecoExporter.Labels.Laws.{
  verdict, values, lookup-security_labels_to_prom_labels,
}
use neco_containers.NecoExporter.Scrape.Laws.{returned}
use neco_containers.NecoExporter.Scrape.Rounds.{Rounds, begin, round, lookup-round}
use Prim.Native.String.{len, ◌++◌ as ◌<>◌}
use text.Mathlib.TextPositions.{len-append}
use neco_containers.NecoExporter.NicIrq.{System, State, collect}
use neco_containers.NecoExporter.NicIrq.Total.{weigh, count_interrupts}
use neco_containers.NecoExporter.NicIrq.Laws.{collect_weighs}

abbrev slot : Slot ℕ
slot = record {
  collector = record { prefix = "irq"; is_leader_metrics = false };
  prev = [];
  health = false;
  seconds = 0;
}

abbrev first_slot : Slot ℕ
first_slot = record slot { prev = "neco_node_irq_old" ∷ []; health = true }

abbrev second_slot : Slot ℕ
second_slot = record slot { prev = "neco_node_irq_q" ∷ []; health = true }

abbrev first_answer : Result String (List (Metric ℕ))
first_answer = ok (record { name = "old"; labels = []; value = 7 } ∷ [])

abbrev second_answer : Result String (List (Metric ℕ))
second_answer = ok (record { name = "q"; labels = []; value = 3 } ∷ [])

abbrev owner : String → ℕ
owner k = if k == "neco_node_bpf_run" then 2 else 1

abbrev first_trace : List (ℕ × Call ℕ)
first_trace = (1, set "neco_node_irq_old" 7) ∷ []

abbrev second_trace : List (ℕ × Call ℕ)
second_trace =
    (1, set "neco_node_irq_q" 3)
    ∷ (2, set "neco_node_bpf_run" 1)
    ∷ (1, unregister "neco_node_irq_old")
    ∷ []

abbrev first_registry : Map ℕ
first_registry = ("neco_node_irq_old", 7) ∷ []

abbrev second_registry : Map ℕ
second_registry = ("neco_node_irq_q", 3) ∷ ("neco_node_bpf_run", 1) ∷ []

nothing_there : {n : String} (o : Option String) → o ≡ none → o ≡ some n → ⊥
nothing_there o h i = cc

-- A name of the metrics on the collectors is longer.
is_other : (m : Metric ℕ) → name_of "node" (λ n. true) "collector" m ≢ some "neco_node_irq_q"
unfolding name_of build_metric_name
is_other m e = elim (Option-cases (label_text m.labels)) [
  | inl i ↦ nothing_there none refl (rw (i, name_of, build_metric_name) at e)
  | inr (l, i) ↦
      let h = ap len (some_inv (rw (i, name_of, build_metric_name) at e)) in
      let tail = "_" <> (m.name <> l) in
      omega (
        arith,
        h,
        len-append "neco_" ("node" <> ("_" <> ("collector" <> tail))),
        len-append "node" ("_" <> ("collector" <> tail)),
        len-append "_" ("collector" <> tail),
        len-append "collector" tail,
        len-append "_" (m.name <> l),
      )
]

first_round : Rounds String "node" (λ n. true) 0 1 owner 1 first_slot first_registry
unfolding goroutine collected report finish name_of build_metric_name label_text run perform
    calls_of insert after_wait set_states set_leader
first_round =
    round (begin slot.collector false 0) false first_answer 0 (set "neco_node_irq_old" 7 ∷ [])
      first_slot refl first_trace (refl, tt) refl [] first_registry refl

lookup-round_example :
    (lookup "neco_node_irq_q" second_registry
      ≡ returned "node" (λ n. true) "neco_node_irq_q" first_slot true second_answer)
    × (is_some (lookup "neco_node_irq_q" second_registry)
        ≡ contains second_slot.prev "neco_node_irq_q")
unfolding goroutine collected report finish name_of build_metric_name label_text run perform
    calls_of insert delete after_wait set_states set_leader
lookup-round_example =
    lookup-round "node" (λ n. true) 0 1 "neco_node_irq_q" is_other String owner first_slot
      first_registry first_round false second_answer 0
      (set "neco_node_irq_q" 3 ∷ unregister "neco_node_irq_old" ∷ []) second_slot refl second_trace
      (refl, (refl, (refl, tt))) refl [] second_registry refl

abbrev system : System String
system = record {
  read_dir = λ d.
      if d == "/proc/irq"
      then ok (
          record { name = "17"; is_dir = true }
          ∷ record { name = "18"; is_dir = true }
          ∷ record { name = "default"; is_dir = false }
          ∷ [])
      else if d == "/proc/irq/17"
      then ok (record { name = "ice-eth0-TxRx-1"; is_dir = true } ∷ [])
      else err "input/output error";
  read_file = λ f. ok "3\n";
  is_not_exist = λ e. false;
  join = λ d n.
      if d == "/proc" then "/proc/irq" else if n == "17" then "/proc/irq/17" else "/proc/irq/18";
  atoi = λ s.
      if s == "17"
      then some (pos 17)
      else if s == "18"
      then some (pos 18)
      else if s == "3"
      then some (pos 3)
      else none;
  trim_space = λ s. if s == "3\n" then "3" else s;
  action_match = λ s. if s == "ice-eth0-TxRx-1" then some ("ice", ("eth0", "1")) else none;
  is_queue_like = λ s. false;
}

abbrev state : State String
state = record { last_skipped = []; log = [] }

collect_weighs_example :
    on_result
      (collect system "node1" "/proc" state).0
      (λ ms.
        on_result
          (system.read_dir (system.join "/proc" "irq"))
          (λ entries. weigh ms ≡ count_interrupts system (system.join "/proc" "irq") entries)
          (λ e. ⊥))
      (λ e. system.read_dir (system.join "/proc" "irq") ≡ err e)
collect_weighs_example = collect_weighs system "node1" "/proc" state

abbrev codes : Codes
codes = record { codes = λ s. []; text = λ l. "label_" }

abbrev identity_labels : Map String
identity_labels = ("k8s:a.b", "1") ∷ ("k8s:a-b", "2") ∷ []

lookup-security_labels_to_prom_labels_example :
    lookup "label_" (security_labels_to_prom_labels codes identity_labels)
    ≡ verdict (values codes "label_" identity_labels)
lookup-security_labels_to_prom_labels_example =
    lookup-security_labels_to_prom_labels codes "label_" identity_labels
