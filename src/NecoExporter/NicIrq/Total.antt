-- ===== src/NecoExporter/NicIrq/Total.antt =====
-- A collection's metrics and skipped interrupts stand for the interrupts that it found.
use neco_containers.Base.{
  ℕ, suc, ◌+◌, ℤ, pos_part, ◌≡◌, refl, String, ◌==◌, true, ◌&&◌, ◌||◌, inl, inr, Result, ok, err,
  List, [], ◌∷◌, ◌++◌, length, length-append, contains, is_some, All, subst, Bool-cases,
  Option-cases, Result-cases, arith, if◌then◌else◌,
}
use neco_containers.NecoExporter.Scrape.{Metric}
use neco_containers.NecoExporter.NicIrq.{
  DirEntry, System, QueueIrq, Skip, Found, found, skipped, both, skip_reasons, other_action,
  by_match, list_actions, list_queue_irqs, single_cpu, collect_queue, collect_queues, collect_irq,
  by_number, collect_irqs,
}

-- A metric of a queue stands for one interrupt, one of skipped_queues for as many as its value.
unfoldable pub weight : Metric ℤ → ℕ
weight m = if m.name == "skipped_queues" then pos_part m.value else 1

unfoldable pub weigh : List (Metric ℤ) → ℕ
unfolding weight
weigh [] = 0
weigh (m ∷ ms) = weight m + weigh ms

pub weigh-append : (ms ns : List (Metric ℤ)) → weigh (ms ++ ns) ≡ weigh ms + weigh ns
unfolding weigh
weigh-append [] ns = omega arith
weigh-append (m ∷ ms) ns = omega (arith, weigh-append ms ns)

module _ {E : Type 0} (sys : System E) where
  -- The directories of an interrupt that look like a queue's.
  unfoldable pub count_queues : List DirEntry → ℕ
  count_queues [] = 0
  count_queues (a ∷ actions) =
      let rest = count_queues actions in
      if a.is_dir && (is_some (sys.action_match a.name) || sys.is_queue_like a.name)
      then suc rest
      else rest

  -- An interrupt whose directory cannot be listed counts once, and nothing where it does not exist.
  unfoldable pub count_listed : Result E (List DirEntry) → ℕ
  unfolding count_queues
  count_listed (ok actions) = count_queues actions
  count_listed (err e) = if sys.is_not_exist e then 0 else 1

  unfoldable pub count_interrupts : String → List DirEntry → ℕ
  unfolding count_listed
  count_interrupts irq_root [] = 0
  count_interrupts irq_root (e ∷ entries) =
      let rest = count_interrupts irq_root entries in
      let counted = count_listed (sys.read_dir (sys.join irq_root e.name)) + rest in
      if e.is_dir && is_some (sys.atoi e.name) then counted else rest

  length-list_actions :
      (irq : ℤ) (actions : List DirEntry)
      → length (list_actions sys irq actions).0 + length (list_actions sys irq actions).1
        ≡ count_queues actions
  unfolding list_actions by_match other_action found skipped count_queues
  length-list_actions irq [] = refl
  length-list_actions irq (a ∷ actions) = elim (Option-cases (sys.action_match a.name)) [
    | inl e ↦ ground (arith, e, length-list_actions irq actions)
    | inr (m, e) ↦ ground (arith, e, length-list_actions irq actions)
  ]

  IsOutcome : Result (Skip E) (Metric ℤ) → Type 0
  IsOutcome (ok m) = weight m ≡ 1
  IsOutcome (err sk) = contains skip_reasons sk.reason ≡ true

  collect_queue-IsOutcome :
      (node irq_dir : String) (q : QueueIrq) → IsOutcome (collect_queue sys node irq_dir q)
  unfolding collect_queue weight IsOutcome
  collect_queue-IsOutcome node irq_dir q =
      elim (Result-cases (sys.read_file (sys.join irq_dir "effective_affinity_list"))) [
        | inr (f, e) ↦ rw (e, collect_queue) refl
        | inl (content, e) ↦ elim (Option-cases (single_cpu (sys.atoi (sys.trim_space content)))) [
          | inl i ↦ rw (e, collect_queue, i) refl
          | inr (n, i) ↦ rw (e, collect_queue, i) refl
        ]
      ]

  -- The metrics and the skipped interrupts stand for the given number of interrupts.
  unfoldable pub IsTotal : ℕ → Found E (Metric ℤ) → Type 0
  IsTotal n (ms, ss) =
      (weigh ms + length ss ≡ n) × All (λ (s : Skip E). contains skip_reasons s.reason ≡ true) ss

  add_outcome-IsTotal :
      (r : Result (Skip E) (Metric ℤ)) (n : ℕ) (f : Found E (Metric ℤ))
      → IsOutcome r
      → IsTotal n f
      → IsTotal (suc n) (elim r [ ok m ↦ found m f | err sk ↦ skipped sk f ])
  unfolding IsOutcome IsTotal found skipped weigh
  add_outcome-IsTotal (ok m) n (ms, ss) o t = (omega (arith, o, t.0), t.1)
  add_outcome-IsTotal (err sk) n (ms, ss) o t = (omega (arith, t.0), (o, t.1))

  collect_queues-IsTotal :
      (node irq_dir : String) (qs : List QueueIrq)
      → IsTotal (length qs) (collect_queues sys node irq_dir qs)
  unfolding collect_queues IsTotal weigh
  collect_queues-IsTotal node irq_dir [] = (refl, tt)
  collect_queues-IsTotal node irq_dir (q ∷ qs) =
      add_outcome-IsTotal (collect_queue sys node irq_dir q) (length qs)
        (collect_queues sys node irq_dir qs) (collect_queue-IsOutcome node irq_dir q)
        (collect_queues-IsTotal node irq_dir qs)

  All-append :
      (ss ts : List (Skip E))
      → All (λ (s : Skip E). contains skip_reasons s.reason ≡ true) ss
      → All (λ (s : Skip E). contains skip_reasons s.reason ≡ true) ts
      → All (λ (s : Skip E). contains skip_reasons s.reason ≡ true) (ss ++ ts)
  All-append [] ts h i = i
  All-append (s ∷ ss) ts h i = (h.0, All-append ss ts h.1 i)

  both-IsTotal :
      (m n : ℕ) (f g : Found E (Metric ℤ)) → IsTotal m f → IsTotal n g → IsTotal (m + n) (both f g)
  unfolding IsTotal both
  both-IsTotal m n (ms, ss) (ns, ts) h i =
      (omega (arith, h.0, i.0, weigh-append ms ns, length-append ss ts), All-append ss ts h.1 i.1)

  list_actions-reasons :
      (irq : ℤ) (actions : List DirEntry)
      → All (λ (s : Skip E). contains skip_reasons s.reason ≡ true) (list_actions sys irq actions).1
  unfolding list_actions by_match other_action found skipped
  list_actions-reasons irq [] = tt
  list_actions-reasons irq (a ∷ actions) =
      let h = list_actions-reasons irq actions in
      elim (Option-cases (sys.action_match a.name)) [
        | inl e ↦ ground (arith, e, h)
        | inr (m, e) ↦ ground (arith, e, h)
      ]

  listed-IsTotal :
      (irq : ℤ) (actions : List DirEntry)
      → IsTotal (length (list_actions sys irq actions).1) ([], (list_actions sys irq actions).1)
  unfolding IsTotal weigh
  listed-IsTotal irq actions = (omega arith, list_actions-reasons irq actions)

  IsTotal-eq : {m n : ℕ} (f : Found E (Metric ℤ)) → m ≡ n → IsTotal m f → IsTotal n f
  IsTotal-eq f e t = subst (λ i. IsTotal i f) e t

  collect_listed-IsTotal :
      (node irq_dir : String) (irq : ℤ) (actions : List DirEntry)
      → IsTotal (count_queues actions) (
          both
            ([], (list_actions sys irq actions).1)
            (collect_queues sys node irq_dir (list_actions sys irq actions).0))
  collect_listed-IsTotal node irq_dir irq actions =
      let (qs, ss) = list_actions sys irq actions in
      IsTotal-eq (both ([], ss) (collect_queues sys node irq_dir qs))
        (omega (arith, length-list_actions irq actions))
        (both-IsTotal (length ss) (length qs) ([], ss) (collect_queues sys node irq_dir qs)
          (listed-IsTotal irq actions) (collect_queues-IsTotal node irq_dir qs))

  collect_irq-IsTotal :
      (node irq_dir : String) (irq : ℤ)
      → IsTotal (count_listed (sys.read_dir irq_dir)) (collect_irq sys node irq_dir irq)
  unfolding collect_irq list_queue_irqs count_listed IsTotal weigh collect_queues both
  collect_irq-IsTotal node irq_dir irq = elim (Result-cases (sys.read_dir irq_dir)) [
    | inl (actions, e) ↦ rw (e, collect_irq) (collect_listed-IsTotal node irq_dir irq actions)
    | inr (f, e) ↦ elim (Bool-cases (sys.is_not_exist f)) [
      | inl i ↦ rw (e, collect_irq, i) (refl, tt)
      | inr i ↦ rw (e, collect_irq, i) (refl, (refl, tt))
    ]
  ]

  pub collect_irqs-IsTotal :
      (node irq_root : String) (entries : List DirEntry)
      → IsTotal (count_interrupts irq_root entries) (collect_irqs sys node irq_root entries)
  unfolding collect_irqs by_number count_interrupts IsTotal weigh
  collect_irqs-IsTotal node irq_root [] = (refl, tt)
  collect_irqs-IsTotal node irq_root (e ∷ entries) =
      let h = collect_irqs-IsTotal node irq_root entries in
      elim (Bool-cases e.is_dir) [
        | inr d ↦ rw (d, collect_irqs) h
        | inl d ↦ elim (Option-cases (sys.atoi e.name)) [
          | inl i ↦ rw (d, collect_irqs, i) h
          | inr (irq, i) ↦
              rw (d, collect_irqs, i)
                (both-IsTotal (count_listed (sys.read_dir (sys.join irq_root e.name)))
                  (count_interrupts irq_root entries)
                  (collect_irq sys node (sys.join irq_root e.name) irq)
                  (collect_irqs sys node irq_root entries)
                  (collect_irq-IsTotal node (sys.join irq_root e.name) irq) h)
        ]
      ]
