-- ===== src/NecoExporter/Scrape/Laws.antt =====
-- The metrics of a collector in the registry after a round.
use neco_containers.Base.{
  ℕ, String, ◌==◌, eq_iff, ◌≡◌, refl, ap, ◌∙◌, Bool, true, false, not, ◌&&◌, ◌||◌, Option, none,
  some, inl, inr, Result, ok, err, List, [], ◌∷◌, ◌++◌, map, Map, lookup, lookup-insert,
  lookup-delete, contains, is_some, All, Bool-cases, Option-cases, arith, if◌then◌else◌,
}
use neco_containers.NecoExporter.Scrape.{
  Metric, Slot, Call, set, unregister, perform, run, calls_of, without, with_name, Report, name_of,
  add_call, report, finish, nothing, collected, goroutine,
}

-- What calls make of the value of one name.
unfoldable effect : {V : Type 0} → String → List (Call V) → Option V → Option V
effect k [] o = o
effect k (set n v ∷ cs) o = let rest = effect k cs in rest (if n == k then some v else o)
effect k (unregister n ∷ cs) o = let rest = effect k cs in rest (if n == k then none else o)

abbrev pub target : {V : Type 0} → Call V → String
target (set n v) = n
target (unregister n) = n

-- Each call is on a name of the collector that makes it.
abbrev pub IsOwned : {V : Type 0} → (String → ℕ) → ℕ × Call V → Type 0
IsOwned owner (i, c) = owner (target c) ≡ i

effect-append :
    {V : Type 0} (k : String) (cs ds : List (Call V)) (o : Option V)
    → effect k (cs ++ ds) o ≡ effect k ds (effect k cs o)
unfolding effect
effect-append k [] ds o = refl
effect-append k (set n v ∷ cs) ds o = effect-append k cs ds _
effect-append k (unregister n ∷ cs) ds o = effect-append k cs ds _

effect-unregister :
    {V : Type 0} (k : String) (ns : List String) (o : Option V)
    → effect k (map (λ n. unregister n) ns) o ≡ (if contains ns k then none else o)
unfolding effect
effect-unregister k [] o = refl
effect-unregister {V} k (n ∷ ns) o =
    ground (arith, effect-unregister k ns o, effect-unregister {V = V} k ns none)

lookup-run :
    {V : Type 0} (owner : String → ℕ) (k : String) (t : List (ℕ × Call V)) (m : Map V)
    → All (IsOwned owner) t
    → lookup k (run t m) ≡ effect k (calls_of (owner k) t) (lookup k m)
unfolding run perform calls_of effect
lookup-run owner k [] m h = refl
lookup-run owner k ((i, set n v) ∷ t) m h =
    ground
      (arith, lookup-run owner k t (perform (set n v) m) h.1, lookup-insert n k v m, eq_iff n k)
lookup-run owner k ((i, unregister n) ∷ t) m h =
    ground
      (arith, lookup-run owner k t (perform (unregister n) m) h.1, lookup-delete n k m, eq_iff n k)

contains-without :
    (k n : String) (ns : List String) → contains (without n ns) k ≡ (not (n == k) && contains ns k)
unfolding without
contains-without k n [] = ground arith
contains-without k n (m ∷ ms) =
    ground (arith, contains-without k n ms, eq_iff m n, eq_iff m k, eq_iff n k)

contains-with_name :
    (k n : String) (ns : List String) → contains (with_name n ns) k ≡ ((n == k) || contains ns k)
unfolding with_name
contains-with_name k n ns = ground (arith, eq_iff n k)

module _ {V : Type 0} (scope : String) (is_valid : String → Bool) (prefix k : String) where
  unfoldable pub is_named : Metric V → Bool
  is_named m = elim (name_of scope is_valid prefix m) [ none ↦ false | some n ↦ n == k ]

  -- The value of the last metric of the given name.
  unfoldable pub last_value : List (Metric V) → Option V → Option V
  unfolding is_named
  last_value [] o = o
  last_value (m ∷ ms) o = let rest = last_value ms in rest (if is_named m then some m.value else o)

  last_value-registered : (ms : List (Metric V)) (v : V) → is_some (last_value ms (some v)) ≡ true
  unfolding last_value
  last_value-registered [] v = refl
  last_value-registered (m ∷ ms) v =
      ground (arith, last_value-registered ms v, last_value-registered ms m.value)

  -- What the loop over the metrics makes of the name.
  IsReport : List (Metric V) → List String → List String → Option (Report V) → Type 0
  IsReport ms prev next none = Unit
  IsReport ms prev next (some r) =
      ((o : Option V) → effect k r.calls o ≡ last_value ms o)
      × (contains r.stale k ≡ (contains prev k && not (is_some (last_value ms none))))
      × (contains r.next k ≡ (contains next k || is_some (last_value ms none)))

  add_call-IsReport :
      (m : Metric V) (ms : List (Metric V)) (prev next : List String) (n : String)
      → name_of scope is_valid prefix m ≡ some n
      → (r : Option (Report V)) → IsReport ms (without n prev) (with_name n next) r
      → IsReport (m ∷ ms) prev next (add_call (set n m.value) r)
  unfolding IsReport last_value effect add_call is_named
  add_call-IsReport m ms prev next n e none h = tt
  add_call-IsReport m ms prev next n e (some r) h = (
    (λ o. rw (e, last_value, is_named) (h.0 (if n == k then some m.value else o))),
    ground (arith, h.1, e, contains-without k n prev, last_value-registered ms m.value),
    ground (arith, h.2, e, contains-with_name k n next, last_value-registered ms m.value),
  )

  report-IsReport :
      (ms : List (Metric V)) (prev next : List String)
      → IsReport ms prev next (report scope is_valid prefix ms prev next)
  unfolding IsReport report last_value effect
  report-IsReport [] prev next = ((λ o. refl), ground arith, ground arith)
  report-IsReport (m ∷ ms) prev next = elim (Option-cases (name_of scope is_valid prefix m)) [
    | inl e ↦ rw (e, report, IsReport) tt
    | inr (n, e) ↦
        rw (e, report)
          (add_call-IsReport m ms prev next n e
            (report scope is_valid prefix ms (without n prev) (with_name n next))
            (report-IsReport ms (without n prev) (with_name n next)))
  ]

  last_value-or :
      (ms : List (Metric V)) (o : Option V)
      → last_value ms o ≡ (if is_some (last_value ms none) then last_value ms none else o)
  unfolding last_value
  last_value-or [] o = refl
  last_value-or (m ∷ ms) o = ground (arith, last_value-or ms o, last_value-registered ms m.value)

  -- The value of the name is the given one after the calls, and the names are kept track of.
  IsEffect : Option V → Option V → Option (List (Call V) × Slot V) → Type 0
  IsEffect o x none = Unit
  IsEffect o x (some (cs, s)) = (effect k cs o ≡ x) × (is_some x ≡ contains s.prev k)

  finish-IsEffect :
      (s : Slot V) (ms : List (Metric V)) (prev : List String) (o : Option V)
      → is_some o ≡ contains prev k
      → (r : Option (Report V)) → IsReport ms prev [] r
      → IsEffect o (last_value ms none) (finish s r)
  unfolding IsEffect IsReport finish
  finish-IsEffect s ms prev o h none i = tt
  finish-IsEffect s ms prev o h (some r) i = (
    ground (
      arith,
      effect-append k r.calls (map (λ n. unregister n) r.stale) o,
      effect-unregister k r.stale (effect k r.calls o),
      i.0 o,
      i.1,
      last_value-or ms o,
    ),
    ground (arith, i.2),
  )

module _ {V : Type 0} (scope : String) (is_valid : String → Bool) (k : String) (s : Slot V) where
  -- The last value that the collector returned for the name, and nothing where the collection
  -- failed or was left to the leader.
  unfoldable pub returned : {E : Type 0} → Bool → Result E (List (Metric V)) → Option V
  returned scraped (err e) = none
  returned scraped (ok ms) =
      if scraped then last_value scope is_valid s.collector.prefix k ms none else none

  collected-IsEffect :
      {E : Type 0} (r : Result E (List (Metric V))) (t : V) (o : Option V)
      → is_some o ≡ contains s.prev k
      → IsEffect scope is_valid s.collector.prefix k o
          (returned true r)
          (collected scope is_valid r t s)
  unfolding collected nothing returned last_value
  collected-IsEffect (err e) t o h =
      finish-IsEffect scope is_valid s.collector.prefix k (record s { health = false; seconds = t })
        [] s.prev o h (nothing s) (report-IsReport scope is_valid s.collector.prefix k [] s.prev [])
  collected-IsEffect (ok ms) t o h =
      finish-IsEffect scope is_valid s.collector.prefix k (record s { health = true; seconds = t })
        ms s.prev o h (report scope is_valid s.collector.prefix ms s.prev [])
        (report-IsReport scope is_valid s.collector.prefix k ms s.prev [])

  returned-none : {E : Type 0} (r : Result E (List (Metric V))) → returned false r ≡ none
  unfolding returned
  returned-none (ok ms) = refl
  returned-none (err e) = refl

  goroutine-IsEffect :
      {E : Type 0} (is_leader : Bool) (r : Result E (List (Metric V))) (t : V) (o : Option V)
      → is_some o ≡ contains s.prev k
      → IsEffect scope is_valid s.collector.prefix k o
          (returned (is_leader || not s.collector.is_leader_metrics) r)
          (goroutine scope is_valid is_leader r t s)
  unfolding goroutine nothing last_value
  goroutine-IsEffect is_leader r t o h =
      elim (Bool-cases (is_leader || not s.collector.is_leader_metrics)) [
        | inl e ↦ rw (e, goroutine) (collected-IsEffect r t o h)
        | inr e ↦
            rw (e, goroutine, returned-none r)
              (finish-IsEffect scope is_valid s.collector.prefix k s [] s.prev o h (nothing s)
                (report-IsReport scope is_valid s.collector.prefix k [] s.prev []))
      ]

  -- After the calls of a round, in whatever order the goroutines made them, the registry has for a
  -- name of a collector the last value that the collector returned for it in this round, and
  -- nothing for a name that it did not return, where its collection failed, and where it is
  -- collected by the leader and this process is not the leader. Which of its names are registered
  -- is again what its goroutine keeps, if that held before the round; each call must be on a name
  -- of the collector that makes it, so that collectors share no name.
  pub lookup-run-goroutine :
      {E : Type 0} (is_leader : Bool) (r : Result E (List (Metric V))) (t : V)
      (calls : List (Call V)) (s' : Slot V)
      → goroutine scope is_valid is_leader r t s ≡ some (calls, s')
      → (owner : String → ℕ) (trace : List (ℕ × Call V)) (registry : Map V)
      → All (IsOwned owner) trace
      → calls_of (owner k) trace ≡ calls
      → is_some (lookup k registry) ≡ contains s.prev k
      → (lookup k (run trace registry)
          ≡ returned (is_leader || not s.collector.is_leader_metrics) r)
        × (is_some (lookup k (run trace registry)) ≡ contains s'.prev k)
  unfolding IsEffect
  lookup-run-goroutine is_leader r t calls s' g owner trace registry owned c h =
      let i = rw g at (goroutine-IsEffect is_leader r t (lookup k registry) h) in
      let e = rw c at (lookup-run owner k trace registry owned) in
      (e ∙ i.0, ap is_some (e ∙ i.0) ∙ i.1)
