-- ===== src/CepChecker/Gauges.antt =====
-- The gauges of the checker.
use neco_containers.Base.{
  ◌≡◌, refl, ◌≢◌, ◌↔◌, ◌⊎◌, inl, inr, All, not, Bool, true, false, ◌&&◌, List, [], ◌∷◌, Option,
  none, some, String, eq_iff, Map, lookup, delete, is_some, any, arith, if◌then◌else◌, Bool-cases,
  ap, ap₂, ◌∙◌,
}
use neco_containers.CepChecker.{
  Missing, Gauge, Checker, Texts, same_gauge, unregister, resolve_gauge, resolve, accept,
}

abbrev pub is_registered : Gauge → List Gauge → Bool
is_registered g gs = any (same_gauge g) gs

same_gauge_iff : (a b : Gauge) → (same_gauge a b ≡ true) ↔ (a ≡ b)
unfolding same_gauge
same_gauge_iff a b = (
  (λ h. ground (arith, eq_iff a.name b.name, eq_iff a.namespace b.namespace)),
  (λ h. ground (arith, eq_iff a.name b.name, eq_iff a.namespace b.namespace)),
)

is_registered-unregister :
    (g h : Gauge) (gs : List Gauge)
    → is_registered h (unregister g gs) ≡ (if same_gauge g h then false else is_registered h gs)
unfolding unregister
is_registered-unregister g h [] = ground arith
is_registered-unregister g h (x ∷ gs) = ground (
  arith,
  is_registered-unregister g h gs,
  same_gauge_iff g h,
  same_gauge_iff g x,
  same_gauge_iff h x,
)

module _ (t : Texts) (found : Map Missing) (g : Gauge) where
  abbrev is_gauge_of : Option (String × String) → Missing → Bool
  is_gauge_of none v = false
  is_gauge_of (some (ns, name)) v =
      same_gauge (record { name = name; namespace = ns; resource = v }) g

  -- The recorded entry is not found any more, and the gauge is its own.
  abbrev unregisters : String × Missing → Bool
  unregisters (k, v) = not (is_some (lookup k found)) && is_gauge_of (t.split k) v

  is_registered-resolve_gauge :
      (o : Option (String × String)) (v : Missing) (gs : List Gauge)
      → is_registered g (resolve_gauge t o v gs)
        ≡ (if is_gauge_of o v then false else is_registered g gs)
  unfolding resolve_gauge
  is_registered-resolve_gauge none v gs = refl
  is_registered-resolve_gauge (some (ns, name)) v gs =
      is_registered-unregister (record { name = name; namespace = ns; resource = v }) g gs

  is_registered-resolve :
      (entries : Map Missing) (c : Checker)
      → is_registered g (resolve t found entries c).gauges
        ≡ (is_registered g c.gauges && not (any unregisters entries))
  unfolding resolve
  is_registered-resolve [] c = ground arith
  is_registered-resolve ((i, v) ∷ entries) c =
      let d : Checker = record {
        gauges = resolve_gauge t (t.split i) v c.gauges;
        missing = delete i c.missing;
      } in
      ground (
        arith,
        is_registered-resolve entries c,
        is_registered-resolve entries d,
        is_registered-resolve_gauge (t.split i) v c.gauges,
      )

  -- A pass that succeeds unregisters a gauge exactly when it is the gauge of a recorded entry, with
  -- its recorded resource, whose key is not found any more.
  is_registered-accept :
      (c : Checker)
      → is_registered g (accept t found c).gauges
        ≡ (is_registered g c.gauges && not (any unregisters c.missing))
  unfolding accept
  is_registered-accept c = is_registered-resolve c.missing c

  is_gauge_of_other :
      (ns name : String) (o : Option (String × String)) (v : Missing)
      → g.namespace ≡ ns
      → g.name ≡ name
      → o ≢ some (ns, name)
      → is_gauge_of o v ≡ false
  is_gauge_of_other ns name none v p q ne = refl
  is_gauge_of_other ns name (some (a, b)) v p q ne =
      elim (Bool-cases (same_gauge (record { name = b; namespace = a; resource = v }) g)) [
        | inl h ↦
            let same : record { name = b; namespace = a; resource = v } ≡ g =
              (same_gauge_iff (record { name = b; namespace = a; resource = v }) g).0 h in
            absurd (
              ne (
                ap₂ (λ x y. some (x, y)) (ap (λ (x : Gauge). x.namespace) same ∙ p)
                  (ap (λ (x : Gauge). x.name) same ∙ q)))
        | inr h ↦ h
      ]

  spared :
      (k ns name : String) (entries : Map Missing)
      → is_some (lookup k found) ≡ true
      → g.namespace ≡ ns
      → g.name ≡ name
      → All (λ (e : String × Missing). (e.0 ≡ k) ⊎ (t.split e.0 ≢ some (ns, name))) entries
      → any unregisters entries ≡ false
  spared k ns name [] f p q a = refl
  spared k ns name ((i, v) ∷ entries) f p q a =
      let rest = spared k ns name entries f p q a.1 in
      elim a.0 [
        | inl e ↦ let e' : is_some (lookup i found) ≡ true = rw e f in ground arith
        | inr ne ↦ ground (arith, is_gauge_of_other ns name (t.split i) v p q ne)
      ]

  -- A gauge that is registered stays registered by a pass in which its key is found, whatever the
  -- pass found missing under that key, when no other recorded key has its names.
  pub is_registered-accept-found :
      (k ns name : String) (c : Checker)
      → is_some (lookup k found) ≡ true
      → g.namespace ≡ ns
      → g.name ≡ name
      → All (λ (e : String × Missing). (e.0 ≡ k) ⊎ (t.split e.0 ≢ some (ns, name))) c.missing
      → is_registered g c.gauges ≡ true
      → is_registered g (accept t found c).gauges ≡ true
  is_registered-accept-found k ns name c f p q a r =
      ground (arith, is_registered-accept c, spared k ns name c.missing f p q a)
