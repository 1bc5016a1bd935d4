-- ===== src/LocalPv/Volume/NameLaws.antt =====
-- The names that `pvName` makes.
use neco_containers.Base.{
  ℕ, ◌≡◌, refl, ◌⊎◌, inl, inr, Bool, true, false, List, [], ◌∷◌, String, arith, map, Bool-cases,
  if◌then◌else◌,
}
use neco_containers.LocalPv.Volume.Name.{
  Names, is_name_char, replace_runs, to_lower, clean_name, pv_name,
}

-- Each character is a letter, digit or dot that is not upper case, or a dash that follows no other
-- dash. The flag says that the character before is a dash.
abbrev pub IsTidy : Bool → List ℕ → Type 0
IsTidy after_dash [] = Unit
IsTidy after_dash (c ∷ cs) =
    ((c ≡ b'-') × (after_dash ≡ false) × IsTidy true cs)
    ⊎ ((is_name_char c ≡ true) × (to_lower c ≡ c) × IsTidy false cs)

lower_name_char :
    (c : ℕ)
    → is_name_char c ≡ true
    → (is_name_char (to_lower c) ≡ true) × (to_lower (to_lower c) ≡ to_lower c)
unfolding is_name_char to_lower
lower_name_char c h = ground arith

dash_facts : (is_name_char b'-' ≡ false) × (to_lower b'-' ≡ b'-')
unfolding is_name_char to_lower
dash_facts = (refl, refl)

replace_runs-IsTidy : (b : Bool) (cs : List ℕ) → IsTidy b (map to_lower (replace_runs b cs))
unfolding replace_runs
replace_runs-IsTidy b [] = tt
replace_runs-IsTidy b (c ∷ cs) = elim (Bool-cases (is_name_char c)) [
  | inl e ↦ rw e (let (n, l) = lower_name_char c e in inr (n, l, replace_runs-IsTidy false cs))
  | inr e ↦ rw e (skipped b (replace_runs-IsTidy true cs))
]
  where
    skipped :
        (b : Bool)
        → IsTidy true (map to_lower (replace_runs true cs))
        → IsTidy b (map to_lower (if b then replace_runs true cs else b'-' ∷ replace_runs true cs))
    skipped true h = h
    skipped false h = inl (dash_facts.1, refl, h)

clean_name-IsTidy : (cs : List ℕ) → IsTidy false (clean_name cs)
unfolding clean_name
clean_name-IsTidy cs = replace_runs-IsTidy false cs

-- Every name that `pvName` makes is tidy: lower-case letters, digits, dots, and dashes of which no
-- two stand side by side.
pv_name-IsTidy :
    (n : Names) (node_name dev_path : String) → IsTidy false (pv_name n node_name dev_path)
unfolding pv_name
pv_name-IsTidy n node_name dev_path = clean_name-IsTidy _

tidy_again : (b : Bool) (cs : List ℕ) → IsTidy b cs → map to_lower (replace_runs b cs) ≡ cs
unfolding replace_runs
tidy_again b [] h = refl
tidy_again b (c ∷ cs) (inl (d, f, h)) = ground (arith, dash_facts, tidy_again true cs h)
tidy_again b (c ∷ cs) (inr (n, l, h)) = ground (arith, tidy_again false cs h)

-- Cleaning a text that has been cleaned changes nothing.
clean_name_idem : (cs : List ℕ) → clean_name (clean_name cs) ≡ clean_name cs
unfolding clean_name
clean_name_idem cs = tidy_again false (clean_name cs) (replace_runs-IsTidy false cs)
