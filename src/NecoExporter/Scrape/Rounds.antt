-- ===== src/NecoExporter/Scrape/Rounds.antt =====
-- neco-exporter/pkg/exporter/exporter.go, the rounds of `Run` as one collector sees them.
use neco_containers.Base.{
  ℕ, ◌≡◌, ◌≢◌, refl, ap, ◌∙◌, String, ◌==◌, eq_iff, Bool, not, ◌||◌, Option, none, some, inl, inr,
  Result, List, [], ◌∷◌, Map, lookup, lookup-insert, contains, is_some, All, Bool-cases,
  Option-cases, if◌then◌else◌,
}
use neco_containers.NecoExporter.Scrape.{
  Metric, Collector, Slot, Call, run, calls_of, name_of, goroutine, set_metric, set_leader,
  set_state, set_one, set_states, after_wait,
}
use neco_containers.NecoExporter.Scrape.Laws.{IsOwned, returned, lookup-run-goroutine}

module _ {V : Type 0} (E : Type 0) (scope : String) (is_valid : String → Bool)
    (zero_value one_value : V) (owner : String → ℕ) (i : ℕ) where
  -- A collector after some rounds, with the registry: in each round its goroutine asks for some
  -- calls, these happen among those of the other collectors, which share no name with it, and the
  -- metrics on the collectors follow.
  pub data Rounds : Slot V → Map V → Type 0 where
    begin :
        (c : Collector) (health : Bool) (t : V)
        → Rounds (record { collector = c; prev = []; health = health; seconds = t }) []
    round :
        {s : Slot V} {registry : Map V}
        → Rounds s registry
        → (is_leader : Bool) (r : Result E (List (Metric V))) (t : V) (calls : List (Call V))
          (s' : Slot V)
        → goroutine scope is_valid is_leader r t s ≡ some (calls, s')
        → (trace : List (ℕ × Call V)) → All (IsOwned owner) trace
        → calls_of i trace ≡ calls
        → (slots : List (Slot V)) (registry' : Map V)
        → after_wait scope is_valid zero_value one_value is_leader slots (run trace registry)
          ≡ some registry'
        → Rounds s' registry'

module _ {V : Type 0} (scope : String) (is_valid : String → Bool) (zero_value one_value : V)
    (k : String) (other : (m : Metric V) → name_of scope is_valid "collector" m ≢ some k) where
  -- What keeps the value of a name that is no metric on the collectors.
  Same : Map V → Option (Map V) → Type 0
  Same m none = Unit
  Same m (some n) = lookup k n ≡ lookup k m

  Same-trans : (l m : Map V) (o : Option (Map V)) → lookup k m ≡ lookup k l → Same m o → Same l o
  unfolding Same
  Same-trans l m none e h = tt
  Same-trans l m (some n) e h = h ∙ e

  chain-Same :
      (l : Map V) (o : Option (Map V)) (f : Map V → Option (Map V))
      → Same l o
      → ((m : Map V) → Same m (f m))
      → Same l (elim o [ none ↦ none | some m ↦ f m ])
  unfolding Same
  chain-Same l none f h g = tt
  chain-Same l (some m) f h g = Same-trans l m (f m) h (g m)

  set_metric-Same :
      (name : String) (labels : Map String) (v : V) (m : Map V)
      → Same m (set_metric scope is_valid zero_value one_value name labels v m)
  unfolding set_metric Same
  set_metric-Same name labels v m =
      let metric : Metric V = record { name = name; labels = labels; value = v } in
      elim (Option-cases (name_of scope is_valid "collector" metric)) [
        | inl e ↦ rw (e, set_metric) tt
        | inr (n, e) ↦
            rw (e, set_metric)
              (elim (Bool-cases (n == k)) [
                | inl d ↦ absurd (other metric (e ∙ ap (λ x. some x) ((eq_iff n k).0 d)))
                | inr d ↦ rw d at (lookup-insert n k v m)
              ])
      ]

  set_leader-Same :
      (is_leader : Bool) (m : Map V)
      → Same m (set_leader scope is_valid zero_value one_value is_leader m)
  unfolding set_leader Same
  set_leader-Same is_leader m = elim (Bool-cases (scope == "cluster")) [
    | inl e ↦
        rw (e, set_leader)
          (set_metric-Same "leader" [] (if is_leader then one_value else zero_value) m)
    | inr e ↦ rw (e, set_leader) refl
  ]

  set_state-Same :
      (s : Slot V) (m : Map V) → Same m (set_state scope is_valid zero_value one_value s m)
  unfolding set_state
  set_state-Same s m =
      let labels = ("collector", s.collector.prefix) ∷ [] in
      let health = if s.health then one_value else zero_value in
      chain-Same m (set_metric scope is_valid zero_value one_value "health" labels health m)
        (λ n. set_metric scope is_valid zero_value one_value "process_seconds" labels s.seconds n)
        (set_metric-Same "health" labels health m)
        (λ n. set_metric-Same "process_seconds" labels s.seconds n)

  set_one-Same :
      (is_leader : Bool) (s : Slot V) (m : Map V)
      → Same m (set_one scope is_valid zero_value one_value is_leader s m)
  unfolding set_one Same
  set_one-Same is_leader s m = elim (Bool-cases (is_leader || not s.collector.is_leader_metrics)) [
    | inl e ↦ rw (e, set_one) (set_state-Same s m)
    | inr e ↦ rw (e, set_one) refl
  ]

  set_states-Same :
      (is_leader : Bool) (slots : List (Slot V)) (m : Map V)
      → Same m (set_states scope is_valid zero_value one_value is_leader slots m)
  unfolding set_states Same
  set_states-Same is_leader [] m = refl
  set_states-Same is_leader (s ∷ slots) m =
      chain-Same m (set_one scope is_valid zero_value one_value is_leader s m)
        (λ n. set_states scope is_valid zero_value one_value is_leader slots n)
        (set_one-Same is_leader s m) (λ n. set_states-Same is_leader slots n)

  after_wait-Same :
      (is_leader : Bool) (slots : List (Slot V)) (m : Map V)
      → Same m (after_wait scope is_valid zero_value one_value is_leader slots m)
  unfolding after_wait
  after_wait-Same is_leader slots m =
      chain-Same m (set_leader scope is_valid zero_value one_value is_leader m)
        (λ n. set_states scope is_valid zero_value one_value is_leader slots n)
        (set_leader-Same is_leader m) (λ n. set_states-Same is_leader slots n)

  module _ (E : Type 0) (owner : String → ℕ) where
    one_round :
        (s : Slot V) (m : Map V)
        → is_some (lookup k m) ≡ contains s.prev k
        → (is_leader : Bool) (r : Result E (List (Metric V))) (t : V) (calls : List (Call V))
          (s' : Slot V)
        → goroutine scope is_valid is_leader r t s ≡ some (calls, s')
        → (trace : List (ℕ × Call V)) → All (IsOwned owner) trace
        → calls_of (owner k) trace ≡ calls
        → (slots : List (Slot V)) (m' : Map V)
        → after_wait scope is_valid zero_value one_value is_leader slots (run trace m) ≡ some m'
        → (lookup k m'
            ≡ returned scope is_valid k s (is_leader || not s.collector.is_leader_metrics) r)
          × (is_some (lookup k m') ≡ contains s'.prev k)
    unfolding Same
    one_round s m h is_leader r t calls s' g trace owned c slots m' a =
        let (v, p) =
          lookup-run-goroutine scope is_valid k s is_leader r t calls s' g owner trace m owned c
            h in
        let same = rw a at (after_wait-Same is_leader slots (run trace m)) in
        (same ∙ v, ap is_some same ∙ p)

    registered :
        {s : Slot V} {m : Map V}
        → Rounds E scope is_valid zero_value one_value owner (owner k) s m
        → is_some (lookup k m) ≡ contains s.prev k
    unfolding lookup
    registered (begin c health t) = refl
    registered (round {s} {registry} before l r t calls s' g trace owned c slots m' a) =
        (one_round s registry (registered before) l r t calls s' g trace owned c slots m' a).1

    -- After any number of rounds of the loop, and whatever the order of the calls of the collectors in
    -- each of them, one more round leaves under a name of a collector the last value that the
    -- collector returned for it in this round, and nothing for a name that it did not return, where
    -- its collection failed, and where it is collected by the leader and this process is not the
    -- leader; what its goroutine keeps for the next round is what is registered. The collectors
    -- share no name, and the name is none of those of the metrics on the collectors.
    pub lookup-round :
        (s : Slot V) (m : Map V)
        → Rounds E scope is_valid zero_value one_value owner (owner k) s m
        → (is_leader : Bool) (r : Result E (List (Metric V))) (t : V) (calls : List (Call V))
          (s' : Slot V)
        → goroutine scope is_valid is_leader r t s ≡ some (calls, s')
        → (trace : List (ℕ × Call V)) → All (IsOwned owner) trace
        → calls_of (owner k) trace ≡ calls
        → (slots : List (Slot V)) (m' : Map V)
        → after_wait scope is_valid zero_value one_value is_leader slots (run trace m) ≡ some m'
        → (lookup k m'
            ≡ returned scope is_valid k s (is_leader || not s.collector.is_leader_metrics) r)
          × (is_some (lookup k m') ≡ contains s'.prev k)
    lookup-round s m before l r t calls s' g trace owned c slots m' a =
        one_round s m (registered before) l r t calls s' g trace owned c slots m' a
