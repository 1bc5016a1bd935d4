-- ===== src/Squid/Laws.antt =====
-- The registry after a conversion.
use neco_containers.Base.{
  ◌≡◌, refl, sym, ap, ◌∙◌, String, ◌==◌, eq_iff, Option, none, some, List, [], ◌∷◌, ◌++◌, Map,
  lookup, insert, lookup-insert, is_some, inl, inr, Option-cases, arith, if◌then◌else◌,
}
use neco_containers.Squid.{Texts, Failure, Write, create, set, Outcome, write, write_all, convert}

module _ {E V : Type 0} (t : Texts E V) (k : String) where
  -- What writes make of the value of the name.
  effect : List (Write V) → Option V → Option V
  effect [] o = o
  effect (create n ∷ ws) o =
      let rest = effect ws in
      rest (if n == k then if is_some o then o else some t.zero_value else o)
  effect (set n v ∷ ws) o = let rest = effect ws in rest (if n == k then some v else o)

  -- The writes of the lines up to the first that fails, that one included, and its error.
  processed : (String → Outcome E V) → List String → List (Write V)
  processed f [] = []
  processed f (l ∷ ls) =
      let rest = processed f ls in (f l).writes ++ elim (f l).error [ none ↦ rest | some e ↦ [] ]

  first_error : (String → Outcome E V) → List String → Option (Failure E)
  first_error f [] = none
  first_error f (l ∷ ls) =
      let rest = first_error f ls in elim (f l).error [ none ↦ rest | some e ↦ some e ]

  effect-append :
      (ws xs : List (Write V)) (o : Option V) → effect (ws ++ xs) o ≡ effect xs (effect ws o)
  unfolding effect
  effect-append [] xs o = refl
  effect-append (create n ∷ ws) xs o = effect-append ws xs _
  effect-append (set n v ∷ ws) xs o = effect-append ws xs _

  lookup-write_all :
      (ws : List (Write V)) (m : Map V) → lookup k (write_all t ws m) ≡ effect ws (lookup k m)
  unfolding write_all write effect
  lookup-write_all [] m = refl
  lookup-write_all (create n ∷ ws) m = ground (
    arith,
    lookup-write_all ws m,
    lookup-write_all ws (insert n t.zero_value m),
    lookup-insert n k t.zero_value m,
    eq_iff n k,
  )
  lookup-write_all (set n v ∷ ws) m =
      ground (arith, lookup-write_all ws (insert n v m), lookup-insert n k v m)

  -- A conversion ends with the first error of its lines, and has done exactly the writes of the lines
  -- up to there, in their order.
  lookup-convert :
      (f : String → Outcome E V) (lines : List String) (m : Map V)
      → ((convert t f lines m).0 ≡ first_error f lines)
        × (lookup k (convert t f lines m).1 ≡ effect (processed f lines) (lookup k m))
  unfolding convert first_error processed effect
  lookup-convert f [] m = (refl, refl)
  lookup-convert f (l ∷ ls) m =
      let ws = (f l).writes in
      let p = lookup-write_all ws m in
      elim (Option-cases (f l).error) [
        | inr (e, i) ↦
            rw (i, convert, first_error, processed)
              (refl, p ∙ sym (effect-append ws [] (lookup k m)))
        | inl i ↦
            let (a, b) = lookup-convert f ls (write_all t ws m) in
            rw (i, convert, first_error, processed)
              (
                a,
                b
                    ∙ ap (effect (processed f ls)) p
                    ∙ sym (effect-append ws (processed f ls) (lookup k m)),
              )
      ]
