-- ===== src/CepChecker/Recorded.antt =====
-- What the checker records after a pass.
use neco_containers.Base.{
  ◌≡◌, refl, Bool, [], ◌∷◌, none, String, eq_iff, Result, ok, Map, lookup, delete, lookup-insert,
  lookup-delete, is_some, err, on_result, arith, if◌then◌else◌,
}
use neco_containers.CepChecker.{
  Missing, Checker, Texts, Api, Failure, check_all, resolve, resolve_gauge, copy, accept, pass,
}

lookup-copy :
    (k : String) (m n : Map Missing)
    → lookup k (copy m n) ≡ (if is_some (lookup k n) then lookup k n else lookup k m)
unfolding copy lookup
lookup-copy k m [] = refl
lookup-copy k m ((i, v) ∷ n) = ground (arith, lookup-insert i k v (copy m n), lookup-copy k m n)

lookup-resolve :
    (t : Texts) (k : String) (found entries : Map Missing) (c : Checker)
    → lookup k (resolve t found entries c).missing ≡ (
        if is_some (lookup k found)
        then lookup k c.missing
        else if is_some (lookup k entries)
        then none
        else lookup k c.missing)
unfolding resolve lookup
lookup-resolve t k found [] c = ground arith
lookup-resolve t k found ((i, v) ∷ entries) c =
    let d : Checker = record {
      gauges = resolve_gauge t (t.split i) v c.gauges;
      missing = delete i c.missing;
    } in
    ground (
      arith,
      lookup-delete i k c.missing,
      lookup-resolve t k found entries c,
      lookup-resolve t k found entries d,
      eq_iff i k,
    )

lookup-accept :
    (t : Texts) (k : String) (found : Map Missing) (c : Checker)
    → lookup k (accept t found c).missing ≡ lookup k found
unfolding accept
lookup-accept t k found c = ground (
  arith,
  lookup-copy k (resolve t found c.missing c).missing found,
  lookup-resolve t k found c.missing c,
)

-- A pass whose checks succeed records exactly the missing resources that the checks found: what was
-- recorded and is not found any more is gone. A pass that fails changes no record.
pub lookup-pass :
    {E : Type 0} (t : Texts) (api : Api E) (ignore_job_pod : Bool) (c : Checker) (k : String)
    → lookup k (pass t api ignore_job_pod c).missing
      ≡ on_result
          (check_all t api ignore_job_pod c.gauges).0
          (λ found. lookup k found)
          (λ e. lookup k c.missing)
unfolding pass
lookup-pass {E} t api j c k = by_result (check_all t api j c.gauges).0
  where
    c' : Checker
    c' = record c { gauges = (check_all t api j c.gauges).1 }

    by_result :
        (r : Result (Failure E) (Map Missing))
        → lookup k (on_result r (λ found. accept t found c') (λ e. c')).missing
          ≡ on_result r (λ found. lookup k found) (λ e. lookup k c.missing)
    by_result (ok found) = lookup-accept t k found c'
    by_result (err e) = refl
