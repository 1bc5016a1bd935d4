-- ===== src/NecoExporter/NicIrq/Laws.antt =====
-- Every queue interrupt is reported or counted, and the log is written on a change only.
use neco_containers.Base.{
  ℕ, suc, ◌+◌, ◌≡◌, refl, String, ◌==◌, eq_iff, true, false, inl, inr, err, List, [], ◌∷◌, ◌++◌,
  map, length, Map, lookup, insert, lookup-insert, contains, All, subst, Bool-cases, on_result,
  Result-cases, arith, if◌then◌else◌,
}
use neco_containers.NecoExporter.NicIrq.{
  DirEntry, System, Skip, skip_reasons, collect_irqs, count_of, count_skips, State, is_changed,
  log_skip_changes, skip_metric, skipped_metrics, collect,
}
use neco_containers.NecoExporter.NicIrq.Total.{
  weigh, weigh-append, count_interrupts, IsTotal, collect_irqs-IsTotal,
}

-- The counts of the three reasons.
sum_counts : Map ℕ → ℕ
unfolding count_of
sum_counts counts =
    count_of "read_error" counts
    + (count_of "not_single_cpu" counts + count_of "unmatched_action" counts)

count_of-insert :
    (r s : String) (n : ℕ) (counts : Map ℕ)
    → count_of s (insert r n counts) ≡ (if r == s then n else count_of s counts)
unfolding count_of
count_of-insert r s n counts = ground (arith, lookup-insert r s n counts, eq_iff r s)

IsCounted : Map ℕ → String → Type 0
unfolding sum_counts
IsCounted counts r =
    sum_counts (insert r (suc (count_of r counts)) counts) ≡ suc (sum_counts counts)

reason-IsCounted :
    (counts : Map ℕ)
    → IsCounted counts "read_error"
      × IsCounted counts "not_single_cpu"
      × IsCounted counts "unmatched_action"
unfolding IsCounted sum_counts
reason-IsCounted counts =
    let c = λ (r s : String). count_of-insert r s (suc (count_of r counts)) counts in
    (
      omega (
        arith,
        c "read_error" "read_error",
        c "read_error" "not_single_cpu",
        c "read_error" "unmatched_action",
      ),
      omega (
        arith,
        c "not_single_cpu" "read_error",
        c "not_single_cpu" "not_single_cpu",
        c "not_single_cpu" "unmatched_action",
      ),
      omega (
        arith,
        c "unmatched_action" "read_error",
        c "unmatched_action" "not_single_cpu",
        c "unmatched_action" "unmatched_action",
      ),
    )

contains-IsCounted :
    (r : String) (counts : Map ℕ) → contains skip_reasons r ≡ true → IsCounted counts r
contains-IsCounted r counts h =
    let i = reason-IsCounted counts in
    elim (Bool-cases ("read_error" == r)) [
      | inl e ↦ subst (IsCounted counts) ((eq_iff "read_error" r).0 e) i.0
      | inr d ↦ elim (Bool-cases ("not_single_cpu" == r)) [
        | inl e ↦ subst (IsCounted counts) ((eq_iff "not_single_cpu" r).0 e) i.1
        | inr e ↦
            subst (IsCounted counts) ((eq_iff "unmatched_action" r).0 (ground (arith, h, d, e))) i.2
      ]
    ]

sum_counts-count_skips :
    {E : Type 0} (ss : List (Skip E)) (counts : Map ℕ)
    → All (λ (s : Skip E). contains skip_reasons s.reason ≡ true) ss
    → sum_counts (count_skips ss counts) ≡ length ss + sum_counts counts
unfolding count_skips IsCounted
sum_counts-count_skips [] counts h = omega arith
sum_counts-count_skips (s ∷ ss) counts h =
    let next = insert s.reason (suc (count_of s.reason counts)) counts in
    omega (arith, sum_counts-count_skips ss next h.1, contains-IsCounted s.reason counts h.0)

is_changed_same : (counts : Map ℕ) (rs : List String) → is_changed counts counts rs ≡ false
unfolding is_changed
is_changed_same counts [] = refl
is_changed_same counts (r ∷ rs) = ground (arith, is_changed_same counts rs)

log_skip_changes_twice :
    {E : Type 0} (counts : Map ℕ) (ss : List (Skip E)) (st : State E)
    → log_skip_changes counts ss (log_skip_changes counts ss st) ≡ log_skip_changes counts ss st
unfolding log_skip_changes
log_skip_changes_twice counts ss st =
    elim (Bool-cases (is_changed counts st.last_skipped skip_reasons)) [
      | inl e ↦ rw (e, log_skip_changes, is_changed_same counts skip_reasons) refl
      | inr e ↦ rw (e, log_skip_changes, is_changed_same counts skip_reasons) refl
    ]

weigh-skip_metric :
    (node : String) (counts : Map ℕ)
    → weigh (map (skip_metric node counts) skip_reasons) ≡ sum_counts counts
unfolding weigh skip_metric sum_counts
weigh-skip_metric node counts = omega arith

module _ {E : Type 0} (sys : System E) (node proc_root : String) where
  weigh_all :
      (entries : List DirEntry)
      → let (ms, ss) = collect_irqs sys node (sys.join proc_root "irq") entries in
        weigh (ms ++ map (skip_metric node (count_skips ss [])) skip_reasons)
        ≡ count_interrupts sys (sys.join proc_root "irq") entries
  unfolding IsTotal sum_counts count_of lookup
  weigh_all entries =
      let (ms, ss) = collect_irqs sys node (sys.join proc_root "irq") entries in
      let t = collect_irqs-IsTotal sys node (sys.join proc_root "irq") entries in
      let counts = count_skips ss [] in
      omega (
        arith,
        t.0,
        weigh-append ms (map (skip_metric node counts) skip_reasons),
        weigh-skip_metric node counts,
        sum_counts-count_skips ss [] t.1,
      )

  -- A collection fails exactly where /proc/irq cannot be listed. Otherwise its metrics stand for
  -- exactly the queue interrupts there: a metric of a queue for one, and one of skipped_queues for
  -- as many as its value. The directories that count are those of the actions of an interrupt that
  -- match the pattern or look like it. An interrupt whose directory cannot be listed counts once,
  -- and one whose directory does not exist any more counts nothing.
  pub collect_weighs :
      (st : State E)
      → on_result
          (collect sys node proc_root st).0
          (λ ms.
            on_result
              (sys.read_dir (sys.join proc_root "irq"))
              (λ entries. weigh ms ≡ count_interrupts sys (sys.join proc_root "irq") entries)
              (λ e. ⊥))
          (λ e. sys.read_dir (sys.join proc_root "irq") ≡ err e)
  unfolding collect skipped_metrics
  collect_weighs st = elim (Result-cases (sys.read_dir (sys.join proc_root "irq"))) [
    | inr (e, i) ↦ rw (i, collect) refl
    | inl (entries, i) ↦ rw (i, collect) (weigh_all entries)
  ]

  -- A collection that finds what the one before it found writes nothing to the log and leaves the
  -- counts that it remembers as they are.
  collect-collect :
      (st : State E)
      → (collect sys node proc_root (collect sys node proc_root st).1).1
        ≡ (collect sys node proc_root st).1
  unfolding collect skipped_metrics log_skip_changes
  collect-collect st = elim (Result-cases (sys.read_dir (sys.join proc_root "irq"))) [
    | inr (e, i) ↦ rw (i, collect) (rw (i, collect) refl)
    | inl (entries, i) ↦
        rw (i, collect)
          (rw (i, collect)
            (log_skip_changes_twice
              (count_skips (collect_irqs sys node (sys.join proc_root "irq") entries).1 [])
              (collect_irqs sys node (sys.join proc_root "irq") entries).1 st))
  ]
