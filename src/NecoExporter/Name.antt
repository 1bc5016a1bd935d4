-- ===== src/NecoExporter/Name.antt =====
-- neco-exporter/pkg/exporter/helper.go, `BuildMetricName`.
use Prim.Native.String.{◌++◌, len, slice}
use mathlib.Core.Option.{Option, none, some}
use neco_containers.Base.{
  String, Bool, ◌||◌, List, [], ◌∷◌, Map, get_text, has_text, sorted, keys, if◌then◌else◌,
}

-- strings.ContainsAny(v, "\\\"\n")
unfoldable pub needs_escape : String → Bool
needs_escape v = has_text v "\\" || (has_text v "\"" || has_text v "\n")

-- The labels of the given keys after `lbls`; `none` is the panic.
unfoldable pub add_labels : Map String → List String → String → Option String
unfolding needs_escape
add_labels labels [] lbls = some lbls
add_labels labels (k ∷ ks) lbls =
    let v = get_text k labels in
    let rest = add_labels labels ks (lbls ++ ("," ++ (k ++ ("=\"" ++ (v ++ "\""))))) in
    if needs_escape v then none else rest

braces : Option String → Option String
braces none = none
braces (some lbls) = some ("{" ++ (slice lbls 1 (len lbls) ++ "}"))

unfoldable pub label_text : Map String → Option String
unfolding add_labels braces
label_text [] = some ""
label_text (l ∷ ls) = braces (add_labels (l ∷ ls) (sorted (keys (l ∷ ls))) "")

full_name : String → String → String → Option String → Option String
full_name scope prefix name none = none
full_name scope prefix name (some lbls) =
    some ("neco_" ++ (scope ++ ("_" ++ (prefix ++ ("_" ++ (name ++ lbls))))))

-- `none` is the panic on a label value that would have to be escaped.
unfoldable pub build_metric_name : String → String → String → Map String → Option String
unfolding label_text full_name
build_metric_name scope prefix name labels = full_name scope prefix name (label_text labels)
