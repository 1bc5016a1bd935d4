-- ===== src/LocalPv/Volume/Name.antt =====
-- `pvName` of local-pv-provisioner/controllers/device_detector.go, over the code points of a name.
use neco_containers.Base.{
  ℕ, ◌+◌, Bool, true, false, ◌&&◌, ◌||◌, List, [], ◌∷◌, ◌++◌, String, leb, nat_eq, map,
  if◌then◌else◌,
}

-- filepath.Base, and the code points of a text.
pub record Names : Type 0 where
  pub base : String → String
  pub codes : String → List ℕ

-- [.0-9A-Za-z]
unfoldable pub is_name_char : ℕ → Bool
is_name_char c =
    nat_eq c b'.'
    || (leb b'0' c && leb c b'9' || (leb b'A' c && leb c b'Z' || leb b'a' c && leb c b'z'))

-- Each longest run of other characters becomes one dash. The flag says that the last character
-- was in such a run.
unfoldable pub replace_runs : Bool → List ℕ → List ℕ
replace_runs in_run [] = []
replace_runs in_run (c ∷ cs) =
    let kept = replace_runs false cs in
    let skipped = replace_runs true cs in
    if is_name_char c then c ∷ kept else if in_run then skipped else b'-' ∷ skipped

-- strings.ToLower on what `replace_runs` leaves, which is ASCII.
unfoldable pub to_lower : ℕ → ℕ
to_lower c = if leb b'A' c && leb c b'Z' then c + 32 else c

unfoldable pub clean_name : List ℕ → List ℕ
unfolding replace_runs is_name_char to_lower
clean_name cs = map to_lower (replace_runs false cs)

unfoldable pub pv_name : Names → String → String → List ℕ
pv_name n node_name dev_path =
    clean_name
      (n.codes "local" ++ (b'-' ∷ (n.codes node_name ++ (b'-' ∷ n.codes (n.base dev_path)))))
