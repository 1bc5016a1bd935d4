-- ===== src/NecoExporter/Labels.antt =====
-- neco-exporter/pkg/collector/cluster/ciliumid/labels.go. A map is read in the order of its list;
-- Go's order is any.
pub mod Laws
use Prim.Native.String.{◌++◌ as ◌<>◌}
use neco_containers.Base.{
  ℕ, String, ◌==◌, Bool, ◌||◌, ◌&&◌, leb, nat_eq, List, [], ◌∷◌, ◌++◌, map, Map, lookup, insert,
  is_some, sorted, if◌then◌else◌,
}

-- The code points of a text, and the text of code points.
pub record Codes : Type 0 where
  pub codes : String → List ℕ
  pub text : List ℕ → String

sanitize_rune : ℕ → ℕ
sanitize_rune r =
    if leb b'a' r && leb r b'z'
      || (leb b'A' r && leb r b'Z' || (leb b'0' r && leb r b'9' || nat_eq r b'_'))
    then r
    else b'_'

unfoldable pub sanitize_label_name : Codes → String → String
unfolding sanitize_rune
sanitize_label_name c key = c.text (c.codes "label_" ++ map sanitize_rune (c.codes key))

abbrev pub conflicted_label_value : String
conflicted_label_value = "<CONFLICTED>"

module _ (c : Codes) where
  -- The loop; the flag of a name that is there already is that of the map so far.
  unfoldable pub add_labels : Map String → Map String → Map String
  unfolding sanitize_label_name
  add_labels [] labels = labels
  add_labels ((k, v) ∷ rest) labels =
      let name = sanitize_label_name c k in
      let value = if is_some (lookup name labels) then conflicted_label_value else v in
      if k == "k8s:io.kubernetes.pod.namespace"
      then add_labels rest labels
      else add_labels rest (insert name value labels)

  unfoldable pub security_labels_to_prom_labels : Map String → Map String
  unfolding add_labels
  security_labels_to_prom_labels security_labels = add_labels security_labels []

entries : Map String → List String
entries [] = []
entries ((k, v) ∷ rest) =
    let others = entries rest in if v == "" then k ∷ others else (k <> ("=" <> v)) ∷ others

-- strings.Join with commas
joined : List String → String
joined [] = ""
joined (s ∷ []) = s
joined (s ∷ t ∷ ts) = s <> ("," <> joined (t ∷ ts))

unfoldable pub format_security_labels : Map String → String
unfolding entries joined
format_security_labels security_labels = joined (sorted (entries security_labels))
