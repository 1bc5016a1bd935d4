-- ===== src/Endpoints/Slices/Refines.antt =====
-- What is left of the slices of a target.
use neco_containers.Base.{
  ℕ, suc, String, ◌==◌, eq_iff, ◌≡◌, refl, sym, ap, ◌∙◌, true, false, Option, none, some, ok, err,
  pure, proceed, proceed_inv, pure_inv, raise_inv, Result-cases, List, [], ◌∷◌, contains, is_some,
  inl, inr, Bool-cases, Option-cases, arith, if◌then◌else◌,
}
use neco_containers.Endpoints.Ports.{NamedPort}
use neco_containers.Endpoints.Slices.{
  KubeApi, chunk, put_service, put_slice, apply_slices, after_delete, delete_one, delete_stale,
  delete_unnecessary, update_target_endpoints,
}

module _ {W E Ip : Type 0} (api : KubeApi W E Ip) (name : String)
    (slice : W → String → Option (List Ip)) where
  -- What the API server says it does with the slices that have the labels of the target: a slice
  -- applied has its addresses, the list has the names of all of them, a slice deleted is gone, and
  -- one that is not found is not there. The other calls leave the slices alone.
  pub record Serves : Type 0 where
    pub reading :
        (w w' : W) (ns : String)
        → api.namespace w ≡ (ok ns, w')
        → (k : String) → slice w' k ≡ slice w k
    pub serving :
        (w w' : W) (ps : List NamedPort) (u : Unit {0})
        → api.apply_service name ps w ≡ (ok u, w')
        → (k : String) → slice w' k ≡ slice w k
    pub applying :
        (w w' : W) (n : String) (ips : List Ip) (ps : List NamedPort) (u : Unit {0})
        → api.apply_slice n ips ps w ≡ (ok u, w')
        → (k : String) → slice w' k ≡ (if n == k then some ips else slice w k)
    pub listing :
        (w w' : W) (l : List String)
        → api.list_slices name w ≡ (ok l, w')
        → (k : String) → (slice w' k ≡ slice w k) × (contains l k ≡ is_some (slice w k))
    pub deleting :
        (w w' : W) (n : String) (u : Unit {0})
        → api.delete_slice n w ≡ (ok u, w')
        → (k : String) → slice w' k ≡ (if n == k then none else slice w k)
    pub missing :
        (w w' : W) (n : String) (e : E)
        → api.delete_slice n w ≡ (err e, w')
        → api.is_not_found e ≡ true
        → (k : String) → (slice w n ≡ none) × (slice w' k ≡ slice w k)

  -- The addresses under a name when the chunks are numbered from the given number.
  unfoldable pub numbered : ℕ → List (List Ip) → String → Option (List Ip) → Option (List Ip)
  numbered i [] k o = o
  numbered i (ips ∷ chunks) k o =
      let rest = numbered (suc i) chunks k in
      rest (if api.slice_name name i == k then some ips else o)

  numbered-or :
      (i : ℕ) (chunks : List (List Ip)) (k : String) (o : Option (List Ip))
      → numbered i chunks k o
        ≡ (if is_some (numbered i chunks k none) then numbered i chunks k none else o)
  unfolding numbered
  numbered-or i [] k o = refl
  numbered-or i (ips ∷ chunks) k o =
      ground (arith, numbered-or (suc i) chunks k o, numbered-or (suc i) chunks k (some ips))

  module _ (law : Serves) where
    apply_slices-numbered :
        (ports : List NamedPort) (i : ℕ) (chunks : List (List Ip)) (w w' : W) (names : List String)
        → apply_slices api false name ports i chunks w ≡ (ok names, w')
        → (k : String)
        → (slice w' k ≡ numbered i chunks k (slice w k))
          × (contains names k ≡ is_some (numbered i chunks k none))
    unfolding apply_slices put_slice numbered
    apply_slices-numbered ports i [] w w' names h k =
        let (e, f) = pure_inv [] names w w' h in
        (ap (λ x. slice x k) (sym f), ap (λ l. contains l k) (sym e))
    apply_slices-numbered ports i (ips ∷ chunks) w w' names h k =
        let n = api.slice_name name i in
        let rest = apply_slices api false name ports (suc i) chunks in
        let (ns, w2, p, q) =
          proceed_inv (proceed (api.apply_slice n ips ports w) (λ u. rest)) (λ ns. pure (n ∷ ns))
            names w' h in
        let (u, w1, r, s) = proceed_inv (api.apply_slice n ips ports w) (λ u. rest) ns w2 p in
        let (e, f) = pure_inv (n ∷ ns) names w2 w' q in
        let (i1, i2) = apply_slices-numbered ports (suc i) chunks w1 w2 ns s k in
        let a = law.applying w w1 n ips ports u r k in
        (
          ap (λ x. slice x k) (sym f) ∙ i1 ∙ ap (numbered (suc i) chunks k) a,
          ap (λ l. contains l k) (sym e)
              ∙ ground (arith, i2, numbered-or (suc i) chunks k (some ips)),
        )

    delete_one-slice :
        (n : String) (w w' : W) (u : Unit {0})
        → delete_one api false n w ≡ (ok u, w')
        → (k : String) → slice w' k ≡ (if n == k then none else slice w k)
    unfolding delete_one after_delete
    delete_one-slice n w w' u h k =
        let w1 = (api.delete_slice n w).1 in
        elim (Result-cases (api.delete_slice n w).0) [
          | inl (v, e) ↦
              let (i, j) = pure_inv tt u w1 w' (rw e at h) in
              ap (λ x. slice x k) (sym j) ∙ law.deleting w w1 n v (ap (λ r. (r, w1)) e) k
          | inr (f, e) ↦ elim (Bool-cases (api.is_not_found f)) [
            | inl b ↦
                let (i, j) = pure_inv tt u w1 w' (rw b at (rw e at h)) in
                let (c, d) = law.missing w w1 n f (ap (λ r. (r, w1)) e) b k in
                ap (λ x. slice x k) (sym j) ∙ ground (arith, c, d, eq_iff n k)
            | inr b ↦ raise_inv f u w1 w' (rw b at (rw e at h))
          ]
        ]

    delete_stale-slice :
        (names listed : List String) (w w' : W) (u : Unit {0})
        → delete_stale api false names listed w ≡ (ok u, w')
        → (k : String)
        → slice w' k
          ≡ (if contains names k then slice w k else if contains listed k then none else slice w k)
    unfolding delete_stale
    delete_stale-slice names [] w w' u h k =
        let (i, j) = pure_inv tt u w w' h in ap (λ x. slice x k) (sym j) ∙ ground arith
    delete_stale-slice names (n ∷ listed) w w' u h k = elim (Bool-cases (contains names n)) [
      | inl b ↦ ground (arith, b, eq_iff n k, delete_stale-slice names listed w w' u (rw b at h) k)
      | inr b ↦
          let (v, w1, p, q) =
            proceed_inv (delete_one api false n w) (λ v. delete_stale api false names listed) u w'
              (rw b at h) in
          ground (
            arith,
            b,
            eq_iff n k,
            delete_one-slice n w w1 v p k,
            delete_stale-slice names listed w1 w' u q k,
          )
    ]

    -- When the update of a target succeeds, the slices with the labels of the target are exactly
    -- the chunks of its addresses under their numbered names: a name of a chunk has the addresses
    -- of the chunk, and any other name has no slice, whatever slices there were before.
    pub update_target_endpoints-slices :
        (ips : List Ip) (size : ℕ) (ports : List NamedPort) (w w' : W) (u : Unit {0})
        → update_target_endpoints api false name ips size ports w ≡ (ok u, w')
        → (k : String) → slice w' k ≡ numbered 0 (chunk size ips) k none
    unfolding update_target_endpoints put_service delete_unnecessary
    update_target_endpoints-slices ips size ports w w' u h k =
        let put = put_service api false name ports in
        let apply = apply_slices api false name ports 0 (chunk size ips) in
        let (names, w3, p, q) =
          proceed_inv (proceed (proceed (api.namespace w) (λ n. put)) (λ v. apply))
            (λ ns. delete_unnecessary api false name ns) u w' h in
        let (v, w2, p2, q2) =
          proceed_inv (proceed (api.namespace w) (λ n. put)) (λ v. apply) names w3 p in
        let (n, w1, p1, q1) = proceed_inv (api.namespace w) (λ n. put) v w2 p2 in
        let (listed, w4, p4, q4) =
          proceed_inv (api.list_slices name w3) (λ l. delete_stale api false names l) u w' q in
        let (a, b) = apply_slices-numbered ports 0 (chunk size ips) w2 w3 names q2 k in
        let (c, d) = law.listing w3 w4 listed p4 k in
        ground (
          arith,
          a,
          b,
          c,
          d,
          delete_stale-slice names listed w4 w' u q4 k,
          numbered-or 0 (chunk size ips) k (slice w2 k),
          Option-cases (slice w3 k),
        )
