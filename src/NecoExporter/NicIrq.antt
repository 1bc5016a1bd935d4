-- ===== src/NecoExporter/NicIrq.antt =====
-- neco-exporter/pkg/collector/node/nicirq/collector.go. The two patterns are read by the regexp
-- package and are parameters here; the float64 of a metric is the integer it is made from.
pub mod Total
pub mod Laws
use neco_containers.Base.{
  ℕ, suc, nat_eq, ℤ, pos, ltb_ℤ, String, Bool, true, false, not, ◌||◌, Option, none, some, Result,
  ok, err, List, [], ◌∷◌, ◌++◌, map, length, Map, lookup, insert, if◌then◌else◌,
}
use neco_containers.NecoExporter.Scrape.{Metric}

pub record DirEntry : Type 0 where
  pub name : String
  pub is_dir : Bool

-- os, filepath, strconv and strings, and what the patterns give for a name.
pub record System (E : Type 0) : Type 0 where
  pub read_dir : String → Result E (List DirEntry)
  pub read_file : String → Result E String
  pub is_not_exist : E → Bool
  pub join : String → String → String
  pub atoi : String → Option ℤ
  pub trim_space : String → String
  pub action_match : String → Option (String × (String × String))
  pub is_queue_like : String → Bool

pub record QueueIrq : Type 0 where
  pub irq : ℤ
  pub action : String
  pub driver : String
  pub device : String
  pub queue : String

pub data Failure (E : Type 0) : Type 0 where
  io : E → Failure E
  no_match : String → Failure E
  no_single_cpu : String → Failure E

pub record Skip (E : Type 0) : Type 0 where
  pub q : QueueIrq
  pub reason : String
  pub error : Failure E

abbrev pub skip_read_error : String
skip_read_error = "read_error"

abbrev pub skip_not_single_cpu : String
skip_not_single_cpu = "not_single_cpu"

abbrev pub skip_unmatched_action : String
skip_unmatched_action = "unmatched_action"

abbrev pub skip_reasons : List String
skip_reasons = skip_read_error ∷ skip_not_single_cpu ∷ skip_unmatched_action ∷ []

unnamed : ℤ → String → QueueIrq
unnamed irq action = record { irq = irq; action = action; driver = ""; device = ""; queue = "" }

abbrev pub Found : Type 0 → Type 0 → Type 0
Found E A = List A × List (Skip E)

module _ {E : Type 0} where
  found : {A : Type 0} → A → Found E A → Found E A
  found a (xs, sks) = (a ∷ xs, sks)

  skipped : {A : Type 0} → Skip E → Found E A → Found E A
  skipped sk (xs, sks) = (xs, sk ∷ sks)

  both : {A : Type 0} → Found E A → Found E A → Found E A
  both (xs, sks) (ys, tks) = (xs ++ ys, sks ++ tks)

-- The error of strconv.Atoi, and a negative number.
single_cpu : Option ℤ → Option ℤ
single_cpu none = none
single_cpu (some n) = if ltb_ℤ n (pos 0) then none else some n

module _ {E : Type 0} (sys : System E) where
  -- What a directory that is not a queue's gives.
  other_action : ℤ → String → Found E QueueIrq → Found E QueueIrq
  unfolding skipped unnamed
  other_action irq name rest =
      if sys.is_queue_like name
      then skipped
          (record { q = unnamed irq name; reason = skip_unmatched_action; error = no_match name })
          rest
      else rest

  by_match : ℤ → String → Option (String × (String × String)) → Found E QueueIrq → Found E QueueIrq
  unfolding other_action found
  by_match irq name none rest = other_action irq name rest
  by_match irq name (some (driver, (device, queue))) rest =
      found (record { irq = irq; action = name; driver = driver; device = device; queue = queue })
        rest

  unfoldable pub list_actions : ℤ → List DirEntry → Found E QueueIrq
  unfolding by_match
  list_actions irq [] = ([], [])
  list_actions irq (a ∷ actions) =
      let rest = list_actions irq actions in
      let matched = by_match irq a.name (sys.action_match a.name) rest in
      if not a.is_dir then rest else matched

  unfoldable pub list_queue_irqs : String → ℤ → Result E (Found E QueueIrq)
  unfolding list_actions
  list_queue_irqs irq_dir irq = elim (sys.read_dir irq_dir) [
    | err e ↦ if sys.is_not_exist e then ok ([], []) else err e
    | ok actions ↦ ok (list_actions irq actions)
  ]

  unfoldable pub collect_queue : String → String → QueueIrq → Result (Skip E) (Metric ℤ)
  unfolding single_cpu
  collect_queue node irq_dir q = elim (sys.read_file (sys.join irq_dir "effective_affinity_list")) [
    | err e ↦ err (record { q = q; reason = skip_read_error; error = io e })
    | ok content ↦ elim (single_cpu (sys.atoi (sys.trim_space content))) [
      | none ↦ err (record {
        q = q;
        reason = skip_not_single_cpu;
        error = no_single_cpu (sys.trim_space content);
      })
      | some cpu ↦ ok (record {
        name = "queue_cpu";
        value = cpu;
        labels =
            ("node", node) ∷ ("driver", q.driver) ∷ ("device", q.device) ∷ ("queue", q.queue) ∷ [];
      })
    ]
  ]

  unfoldable pub collect_queues : String → String → List QueueIrq → Found E (Metric ℤ)
  unfolding collect_queue found skipped
  collect_queues node irq_dir [] = ([], [])
  collect_queues node irq_dir (q ∷ qs) =
      let rest = collect_queues node irq_dir qs in
      elim (collect_queue node irq_dir q) [ ok m ↦ found m rest | err sk ↦ skipped sk rest ]

  -- The interrupt of one directory of /proc/irq.
  unfoldable pub collect_irq : String → String → ℤ → Found E (Metric ℤ)
  unfolding collect_queues both unnamed list_queue_irqs
  collect_irq node irq_dir irq = elim (list_queue_irqs irq_dir irq) [
    | err e ↦ ([], record { q = unnamed irq ""; reason = skip_read_error; error = io e } ∷ [])
    | ok listed ↦ both ([], listed.1) (collect_queues node irq_dir listed.0)
  ]

  by_number : String → String → Option ℤ → Found E (Metric ℤ) → Found E (Metric ℤ)
  unfolding collect_irq both
  by_number node irq_dir none rest = rest
  by_number node irq_dir (some irq) rest = both (collect_irq node irq_dir irq) rest

  unfoldable pub collect_irqs : String → String → List DirEntry → Found E (Metric ℤ)
  unfolding by_number
  collect_irqs node irq_root [] = ([], [])
  collect_irqs node irq_root (e ∷ entries) =
      let rest = collect_irqs node irq_root entries in
      let numbered = by_number node (sys.join irq_root e.name) (sys.atoi e.name) rest in
      if not e.is_dir then rest else numbered

-- counts[reason], where a missing reason counts 0
unfoldable pub count_of : String → Map ℕ → ℕ
count_of reason counts = elim (lookup reason counts) [ none ↦ 0 | some n ↦ n ]

unfoldable pub count_skips : {E : Type 0} → List (Skip E) → Map ℕ → Map ℕ
unfolding count_of
count_skips [] counts = counts
count_skips (s ∷ ss) counts =
    count_skips ss (insert s.reason (suc (count_of s.reason counts)) counts)

-- A line of the log: the number of skipped interrupts, the counts, and the first interrupt with its
-- error.
pub data Line (E : Type 0) : Type 0 where
  reported_again : ℕ → List ℕ → Line E
  left_out : ℕ → List ℕ → Skip E → Line E

pub record State (E : Type 0) : Type 0 where
  pub last_skipped : Map ℕ
  pub log : List (Line E)

unfoldable pub is_changed : Map ℕ → Map ℕ → List String → Bool
unfolding count_of
is_changed counts last [] = false
is_changed counts last (r ∷ rs) =
    let rest = is_changed counts last rs in
    if not (nat_eq (count_of r counts) (count_of r last)) then true else rest

unfoldable pub skip_metric : String → Map ℕ → String → Metric ℤ
unfolding count_of
skip_metric node counts reason = record {
  name = "skipped_queues";
  value = pos (count_of reason counts);
  labels = ("node", node) ∷ ("reason", reason) ∷ [];
}

module _ {E : Type 0} where
  line_of : Map ℕ → List (Skip E) → Line E
  unfolding count_of
  line_of counts [] = reported_again 0 (map (λ r. count_of r counts) skip_reasons)
  line_of counts (s ∷ ss) = left_out (length (s ∷ ss)) (map (λ r. count_of r counts) skip_reasons) s

  unfoldable pub log_skip_changes : Map ℕ → List (Skip E) → State E → State E
  unfolding is_changed line_of
  log_skip_changes counts ss st =
      if is_changed counts st.last_skipped skip_reasons
      then record { last_skipped = counts; log = st.log ++ line_of counts ss ∷ [] }
      else record st { last_skipped = counts }

  unfoldable pub skipped_metrics : String → List (Skip E) → State E → List (Metric ℤ) × State E
  unfolding count_skips log_skip_changes skip_metric
  skipped_metrics node ss st =
      let counts = count_skips ss [] in
      (map (skip_metric node counts) skip_reasons, log_skip_changes counts ss st)

module _ {E : Type 0} (sys : System E) where
  unfoldable pub collect : String → String → State E → Result E (List (Metric ℤ)) × State E
  unfolding collect_irqs skipped_metrics
  collect node proc_root st =
      let irq_root = sys.join proc_root "irq" in
      elim (sys.read_dir irq_root) [
        | err e ↦ (err e, st)
        | ok entries ↦
            let (ms, ss) = collect_irqs sys node irq_root entries in
            let (ks, st') = skipped_metrics node ss st in (ok (ms ++ ks), st')
      ]
