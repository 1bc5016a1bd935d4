-- ===== src/NecoExporter/Scrape.antt =====
-- neco-exporter/pkg/exporter/exporter.go, one round of `Run`: what each collector's goroutine asks of
-- the registry of metrics, the registry after the calls of the goroutines in any order, and the
-- metrics on the collectors that follow them. Numbers are values of any type.
pub mod Laws
pub mod Rounds
use neco_containers.Base.{
  ℕ, nat_eq, String, ◌==◌, Bool, true, false, not, ◌||◌, Option, none, some, Result, ok, err, List,
  [], ◌∷◌, ◌++◌, map, Map, insert, delete, contains, is_some, if◌then◌else◌,
}
use neco_containers.NecoExporter.Name.{build_metric_name}

pub record Metric (V : Type 0) : Type 0 where
  pub name : String
  pub labels : Map String
  pub value : V

pub record Collector : Type 0 where
  pub prefix : String
  pub is_leader_metrics : Bool

-- A collector with its entries of `prev`, `health` and `dur`.
pub record Slot (V : Type 0) : Type 0 where
  pub collector : Collector
  pub prev : List String
  pub health : Bool
  pub seconds : V

-- The calls of the metrics package: GetOrCreateFloatCounter with Set, and UnregisterMetric.
pub data Call (V : Type 0) : Type 0 where
  set : String → V → Call V
  unregister : String → Call V

unfoldable pub perform : {V : Type 0} → Call V → Map V → Map V
perform (set n v) registry = insert n v registry
perform (unregister n) registry = delete n registry

-- The calls of the goroutines in the order in which they happen, each with the number of its
-- collector.
unfoldable pub run : {V : Type 0} → List (ℕ × Call V) → Map V → Map V
unfolding perform
run [] registry = registry
run ((i, c) ∷ trace) registry = run trace (perform c registry)

-- The calls of one goroutine among them.
unfoldable pub calls_of : {V : Type 0} → ℕ → List (ℕ × Call V) → List (Call V)
calls_of i [] = []
calls_of i ((j, c) ∷ trace) = let rest = calls_of i trace in if nat_eq j i then c ∷ rest else rest

-- A set of texts.
unfoldable pub without : String → List String → List String
without n [] = []
without n (m ∷ ms) = let rest = without n ms in if m == n then rest else m ∷ rest

unfoldable pub with_name : String → List String → List String
with_name n ms = if contains ms n then ms else n ∷ ms

pub record Report (V : Type 0) : Type 0 where
  pub calls : List (Call V)
  pub stale : List String
  pub next : List String

module _ {V : Type 0} where
  unfoldable pub add_call : Call V → Option (Report V) → Option (Report V)
  add_call c none = none
  add_call c (some r) = some (record r { calls = c ∷ r.calls })

  -- Remove stale metrics; prev[i] = next
  unfoldable pub finish : Slot V → Option (Report V) → Option (List (Call V) × Slot V)
  finish s none = none
  finish s (some r) = some (r.calls ++ map (λ n. unregister n) r.stale, record s { prev = r.next })

  unfoldable pub nothing : Slot V → Option (Report V)
  nothing s = some (record { calls = []; stale = s.prev; next = [] })

-- GetOrCreateFloatCounter panics on a name that is not valid.
valid_name : (String → Bool) → Option String → Option String
valid_name is_valid none = none
valid_name is_valid (some n) = if is_valid n then some n else none

module _ {V : Type 0} (scope : String) (is_valid : String → Bool) where
  unfoldable pub name_of : String → Metric V → Option String
  unfolding valid_name
  name_of prefix m = valid_name is_valid (build_metric_name scope prefix m.name m.labels)

  -- The loop over the metrics; `none` is a panic.
  unfoldable pub report : String → List (Metric V) → List String → List String → Option (Report V)
  unfolding add_call without with_name
  report prefix [] prev next = some (record { calls = []; stale = prev; next = next })
  report prefix (m ∷ ms) prev next = elim (name_of prefix m) [
    | none ↦ none
    | some n ↦ add_call (set n m.value) (report prefix ms (without n prev) (with_name n next))
  ]

  unfoldable pub collected :
      {E : Type 0} → Result E (List (Metric V)) → V → Slot V → Option (List (Call V) × Slot V)
  unfolding finish report nothing
  collected (err e) t s = finish (record s { health = false; seconds = t }) (nothing s)
  collected (ok ms) t s =
      finish (record s { health = true; seconds = t }) (report s.collector.prefix ms s.prev [])

  -- What one goroutine asks for in a round, and its entries after the round.
  unfoldable pub goroutine :
      {E : Type 0}
      → Bool
      → Result E (List (Metric V))
      → V
      → Slot V
      → Option (List (Call V) × Slot V)
  unfolding collected
  goroutine is_leader r t s =
      if is_leader || not s.collector.is_leader_metrics
      then collected r t s
      else finish s (nothing s)

  module _ (zero_value one_value : V) where
    set_metric : String → Map String → V → Map V → Option (Map V)
    set_metric name labels v registry =
        elim (name_of "collector" (record { name = name; labels = labels; value = v })) [
          | none ↦ none
          | some n ↦ some (insert n v registry)
        ]

    -- neco_cluster_collector_leader
    unfoldable pub set_leader : Bool → Map V → Option (Map V)
    unfolding set_metric
    set_leader is_leader registry =
        if scope == "cluster"
        then set_metric "leader" [] (if is_leader then one_value else zero_value) registry
        else some registry

    -- neco_xxx_collector_health and neco_xxx_collector_process_seconds
    set_state : Slot V → Map V → Option (Map V)
    unfolding set_metric
    set_state s registry =
        let labels = ("collector", s.collector.prefix) ∷ [] in
        elim (set_metric "health" labels (if s.health then one_value else zero_value) registry) [
          | none ↦ none
          | some next ↦ set_metric "process_seconds" labels s.seconds next
        ]

    set_one : Bool → Slot V → Map V → Option (Map V)
    unfolding set_state
    set_one is_leader s registry =
        if is_leader || not s.collector.is_leader_metrics
        then set_state s registry
        else some registry

    unfoldable pub set_states : Bool → List (Slot V) → Map V → Option (Map V)
    unfolding set_one
    set_states is_leader [] registry = some registry
    set_states is_leader (s ∷ ss) registry = elim (set_one is_leader s registry) [
      | none ↦ none
      | some next ↦ set_states is_leader ss next
    ]

    -- What follows wg.Wait().
    unfoldable pub after_wait : Bool → List (Slot V) → Map V → Option (Map V)
    unfolding set_leader set_states
    after_wait is_leader ss registry = elim (set_leader is_leader registry) [
      | none ↦ none
      | some next ↦ set_states is_leader ss next
    ]
