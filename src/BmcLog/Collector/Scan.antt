-- ===== src/BmcLog/Collector/Scan.antt =====
-- The loop over the entries of one response.
use neco_containers.Base.{
  ◌≡◌, refl, ap, ap₂, sym, ◌∙◌, Bool-cases, inl, inr, ◌≤ℤ◌, ◌<ℤ◌, String, Option, none, some, List,
  [], ◌∷◌, ◌++◌, ℤ, ltb_ℤ, Bool, true, false, arith, All, if◌then◌else◌,
}
use neco_containers.BmcLog.Collector.{
  SystemEventLog, Api, Machine, line, read_entry, read_backward, Progress,
}

module _ {E D : Type 0} (api : Api E D) (m : Machine) where
  abbrev pub is_id : Option ℤ → Bool
  is_id none = false
  is_id (some id) = true

  -- The id is there and is greater than `last`.
  abbrev pub is_after : ℤ → Option ℤ → Bool
  is_after last none = false
  is_after last (some id) = ltb_ℤ last id

  -- The lines of the entries that pass a test of their ids.
  abbrev pub lines_of : (Option ℤ → Bool) → List (SystemEventLog D) → List (String × String)
  lines_of test [] = []
  lines_of test (v ∷ vs) =
      if test (api.atoi v.id) then line api m v ∷ lines_of test vs else lines_of test vs

  read_entry_reset :
      (v : SystemEventLog D) (o : Option ℤ) (p : Progress api m)
      → (read_entry api m true v o p).1 ≡ (if is_id o then line api m v ∷ p.1 else p.1)
  unfolding read_entry
  read_entry_reset v none p = refl
  read_entry_reset v (some id) p = ground arith

  append_if :
      (b : Bool) (x : String × String) (xs out : List (String × String))
      → ((if b then x ∷ xs else xs) ++ out) ≡ (if b then x ∷ (xs ++ out) else xs ++ out)
  append_if true x xs out = refl
  append_if false x xs out = refl

  -- After a reset, every entry with an id is written, whatever was read before.
  read_backward_reset :
      (sel : List (SystemEventLog D)) (p : Progress api m)
      → (read_backward api m true sel p).1 ≡ lines_of is_id sel ++ p.1
  unfolding read_backward
  read_backward_reset [] p = refl
  read_backward_reset (v ∷ vs) p =
      read_entry_reset v (api.atoi v.id) (read_backward api m true vs p)
      ∙ ap (λ out. if is_id (api.atoi v.id) then line api m v ∷ out else out)
          (read_backward_reset vs p)
      ∙ sym (append_if (is_id (api.atoi v.id)) (line api m v) (lines_of is_id vs) p.1)

  abbrev pub IsBelow : ℤ → Option ℤ → Type 0
  IsBelow x none = Unit
  IsBelow x (some id) = id <ℤ x

  abbrev pub AtMost : ℤ → Option ℤ → Type 0
  AtMost x none = Unit
  AtMost x (some id) = id ≤ℤ x

  abbrev pub AllBelow : Option ℤ → List (SystemEventLog D) → Type 0
  AllBelow none vs = Unit
  AllBelow (some id) vs = All (λ (w : SystemEventLog D). IsBelow id (api.atoi w.id)) vs

  -- Every id is greater than those further back in the list.
  abbrev pub NewestFirst : List (SystemEventLog D) → Type 0
  NewestFirst [] = Unit
  NewestFirst (v ∷ vs) = AllBelow (api.atoi v.id) vs × NewestFirst vs

  abbrev pub Covers : ℤ → List (SystemEventLog D) → Type 0
  Covers x vs = All (λ (w : SystemEventLog D). AtMost x (api.atoi w.id)) vs

  read_entry-lower :
      (v : SystemEventLog D) (o : Option ℤ) (last : ℤ) (p : Progress api m)
      → last ≤ℤ p.0
      → (last ≤ℤ (read_entry api m false v o p).0)
        × AtMost (read_entry api m false v o p).0 o
        × (p.0 ≤ℤ (read_entry api m false v o p).0)
  unfolding read_entry
  read_entry-lower v none last p h = (h, tt, ground arith)
  read_entry-lower v (some id) last p h = (ground arith, ground arith, ground arith)

  read_backward-lower :
      (sel : List (SystemEventLog D)) (p : Progress api m)
      → p.0 ≤ℤ (read_backward api m false sel p).0
  unfolding read_backward
  read_backward-lower [] p = ground arith
  read_backward-lower (v ∷ vs) p =
      (read_entry-lower v (api.atoi v.id) p.0 (read_backward api m false vs p)
        (read_backward-lower vs p)).0

  read_entry-upper :
      (reset : Bool) (v : SystemEventLog D) (o : Option ℤ) (x : ℤ) (p : Progress api m)
      → p.0 <ℤ x
      → IsBelow x o
      → (read_entry api m reset v o p).0 <ℤ x
  unfolding read_entry
  read_entry-upper reset v none x p h b = h
  read_entry-upper reset v (some id) x p h b = ground arith

  read_backward-upper :
      (sel : List (SystemEventLog D)) (x : ℤ) (p : Progress api m)
      → p.0 <ℤ x
      → All (λ (w : SystemEventLog D). IsBelow x (api.atoi w.id)) sel
      → (read_backward api m false sel p).0 <ℤ x
  unfolding read_backward
  read_backward-upper [] x p h a = h
  read_backward-upper (v ∷ vs) x p h a =
      read_entry-upper false v (api.atoi v.id) x (read_backward api m false vs p)
        (read_backward-upper vs x p h a.1) a.0

  is_after_iff :
      (o : Option ℤ) (vs : List (SystemEventLog D)) (p : Progress api m)
      → AllBelow o vs
      → is_after (read_backward api m false vs p).0 o ≡ is_after p.0 o
  is_after_iff none vs p a = refl
  is_after_iff (some id) vs p a =
      let lower = read_backward-lower vs p in
      elim (Bool-cases (ltb_ℤ p.0 id)) [
        | inl h ↦ let upper = read_backward-upper vs id p (ground arith) a in ground arith
        | inr h ↦ ground arith
      ]

  read_entry_same :
      (v : SystemEventLog D) (o : Option ℤ) (p : Progress api m)
      → (read_entry api m false v o p).1 ≡ (if is_after p.0 o then line api m v ∷ p.1 else p.1)
  unfolding read_entry
  read_entry_same v none p = refl
  read_entry_same v (some id) p = ground arith

  -- Without a reset, and with the ids newest first, the lines written are those of the entries whose
  -- id is greater than the last one read, the oldest first.
  read_backward_same :
      (sel : List (SystemEventLog D)) (p : Progress api m)
      → NewestFirst sel
      → (read_backward api m false sel p).1 ≡ lines_of (is_after p.0) sel ++ p.1
  unfolding read_backward
  read_backward_same [] p n = refl
  read_backward_same (v ∷ vs) p n =
      read_entry_same v (api.atoi v.id) (read_backward api m false vs p)
      ∙ ap₂ (λ b out. if b then line api m v ∷ out else out) (is_after_iff (api.atoi v.id) vs p n.0)
          (read_backward_same vs p n.1)
      ∙ sym
          (append_if (is_after p.0 (api.atoi v.id)) (line api m v) (lines_of (is_after p.0) vs) p.1)
