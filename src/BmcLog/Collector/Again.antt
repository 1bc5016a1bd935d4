-- ===== src/BmcLog/Collector/Again.antt =====
-- The loop over the entries of a response that was read before.
use neco_containers.Base.{
  ◌≡◌, refl, sym, subst, ap, ◌∙◌, ◌≤ℤ◌, Option, none, some, List, [], ◌∷◌, ℤ, Bool, true, false,
  arith, All,
}
use neco_containers.BmcLog.Collector.{
  SystemEventLog, Api, Machine, read_entry, read_backward, Progress,
}
use neco_containers.BmcLog.Collector.Scan.{IsBelow, AtMost, AllBelow, NewestFirst, Covers}

module _ {E D : Type 0} (api : Api E D) (m : Machine) where
  AtMost-of_below : (x : ℤ) (o : Option ℤ) → IsBelow api m x o → AtMost api m x o
  AtMost-of_below x none h = tt
  AtMost-of_below x (some id) h = ground arith

  Covers-of_below :
      (x : ℤ) (vs : List (SystemEventLog D))
      → All (λ (w : SystemEventLog D). IsBelow api m x (api.atoi w.id)) vs
      → Covers api m x vs
  Covers-of_below x [] a = tt
  Covers-of_below x (v ∷ vs) a = (AtMost-of_below x (api.atoi v.id) a.0, Covers-of_below x vs a.1)

  AtMost-trans : (x y : ℤ) (o : Option ℤ) → x ≤ℤ y → AtMost api m x o → AtMost api m y o
  AtMost-trans x y none l h = tt
  AtMost-trans x y (some id) l h = ground arith

  Covers-weaken :
      (x y : ℤ) (vs : List (SystemEventLog D)) → x ≤ℤ y → Covers api m x vs → Covers api m y vs
  Covers-weaken x y [] l a = tt
  Covers-weaken x y (v ∷ vs) l a =
      (AtMost-trans x y (api.atoi v.id) l a.0, Covers-weaken x y vs l a.1)

  read_entry-Covers :
      (reset : Bool) (v : SystemEventLog D) (o : Option ℤ) (vs : List (SystemEventLog D))
      (p : Progress api m)
      → AllBelow api m o vs
      → Covers api m p.0 vs
      → AtMost api m (read_entry api m reset v o p).0 o
        × Covers api m (read_entry api m reset v o p).0 vs
  unfolding read_entry
  read_entry-Covers reset v none vs p b c = (tt, c)
  read_entry-Covers true v (some id) vs p b c =
      let same : (read_entry api m true v (some id) p).0 ≡ id = ground arith in
      (ground arith, subst (λ x. Covers api m x vs) (sym same) (Covers-of_below id vs b))
  read_entry-Covers false v (some id) vs p b c =
      (ground arith, Covers-weaken p.0 (read_entry api m false v (some id) p).0 vs (ground arith) c)

  -- The last id read is at least every id of the response.
  read_backward-Covers :
      (reset : Bool) (sel : List (SystemEventLog D)) (p : Progress api m)
      → NewestFirst api m sel
      → Covers api m (read_backward api m reset sel p).0 sel
  unfolding read_backward
  read_backward-Covers reset [] p n = tt
  read_backward-Covers reset (v ∷ vs) p n =
      read_entry-Covers reset v (api.atoi v.id) vs (read_backward api m reset vs p) n.0
        (read_backward-Covers reset vs p n.1)

  read_entry_covered :
      (v : SystemEventLog D) (o : Option ℤ) (p : Progress api m)
      → AtMost api m p.0 o
      → read_entry api m false v o p ≡ p
  unfolding read_entry
  read_entry_covered v none p a = refl
  read_entry_covered v (some id) p a = ground arith

  read_backward_covered :
      (sel : List (SystemEventLog D)) (p : Progress api m)
      → Covers api m p.0 sel
      → read_backward api m false sel p ≡ p
  unfolding read_backward
  read_backward_covered [] p c = refl
  read_backward_covered (v ∷ vs) p c =
      ap (read_entry api m false v (api.atoi v.id)) (read_backward_covered vs p c.1)
      ∙ read_entry_covered v (api.atoi v.id) p c.0

  -- Whether the log was reset or not, a second pass over the same entries writes nothing.
  pub read_backward_again :
      (reset : Bool) (sel : List (SystemEventLog D)) (p : Progress api m)
      → NewestFirst api m sel
      → read_backward api m false sel (read_backward api m reset sel p)
        ≡ read_backward api m reset sel p
  read_backward_again reset sel p n =
      read_backward_covered sel (read_backward api m reset sel p)
        (read_backward-Covers reset sel p n)
