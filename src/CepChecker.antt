-- ===== src/CepChecker.antt =====
-- cep-checker/main.go. A Go map that is a set is the list of its keys, each once. A map is iterated
-- in the order of its list; no statement speaks of that order. Within one pass the API server
-- answers for a name by a function: a pass looks each key up at most once.
pub mod Recorded
pub mod Gauges
pub mod Verdict
use neco_containers.Base.{
  Bool, true, false, not, ◌&&◌, ◌||◌, List, [], ◌∷◌, ◌++◌, Option, none, some, String, ◌==◌, Result,
  ok, err, Exec, ◌>>=◌, ◌>>◌, pure, raise, proceed, Map, lookup, insert, delete, is_some, contains,
  any, on_result, if◌then◌else◌,
}

pub record Pod : Type 0 where
  pub namespace : String
  pub name : String
  pub host_network : Bool
  pub phase : String
  pub pod_ip : String
  pub owner_kinds : List String

-- Which of the two is missing: the texts "cep" and "pod".
pub data Missing : Type 0 where
  cep pod : Missing

-- The name of a gauge, by its three labels.
pub record Gauge : Type 0 where
  pub name : String
  pub namespace : String
  pub resource : Missing

unfoldable pub same_missing : Missing → Missing → Bool
same_missing cep cep = true
same_missing pod pod = true
same_missing a b = false

unfoldable pub same_gauge : Gauge → Gauge → Bool
unfolding same_missing
same_gauge a b =
    a.name == b.name && (a.namespace == b.namespace && same_missing a.resource b.resource)

-- The gauges that are registered, and missingResourceNameToKind.
pub record Checker : Type 0 where
  pub gauges : List Gauge
  pub missing : Map Missing

-- `key` is fmt.Sprintf("%s/%s", …), and `split` gives the first two parts of strings.Split at "/";
-- a key without "/" would be an index out of range.
pub record Texts : Type 0 where
  pub key : String → String → String
  pub split : String → Option (String × String)

-- The API server: List of both resources, Get of each by namespace and name, and IsNotFound.
pub record Api (E : Type 0) : Type 0 where
  pub list_pods : Result E (List Pod)
  pub list_ceps : Result E (List (String × String))
  pub get_pod : String → String → Result E Pod
  pub get_cep : String → String → Result E (Unit {0})
  pub is_not_found : E → Bool

pub data Failure (E : Type 0) : Type 0 where
  failed : E → Failure E
  index_out_of_range : Failure E

unfoldable pub is_target_pod : Bool → Pod → Bool
is_target_pod ignore_job_pod p =
    if p.host_network
    then false
    else if not (p.phase == "Running")
    then false
    else if p.pod_ip == ""
    then false
    else if ignore_job_pod && any (λ kind. kind == "Job") p.owner_kinds
    then false
    else true

unfoldable pub register : Gauge → List Gauge → List Gauge
register g gs = if any (same_gauge g) gs then gs else g ∷ gs

unfoldable pub unregister : Gauge → List Gauge → List Gauge
unregister g [] = []
unregister g (h ∷ gs) = let rest = unregister g gs in if same_gauge g h then rest else h ∷ rest

add_key : String → List String → List String
add_key k ks = if contains ks k then ks else k ∷ ks

unfoldable pub compare_existence : Bool → Bool → Option Missing
compare_existence true false = some cep
compare_existence false true = some pod
compare_existence a b = none

unfoldable pub note : String → Option Missing → Map Missing → Map Missing
note k none m = m
note k (some v) m = insert k v m

-- maps.Copy
unfoldable pub copy : Map Missing → Map Missing → Map Missing
copy m [] = m
copy m ((k, v) ∷ entries) = insert k v (copy m entries)

module _ (t : Texts) where
  -- The gauge of an entry that is resolved is unregistered. The keys are those that `check` has split
  -- before.
  unfoldable pub resolve_gauge : Option (String × String) → Missing → List Gauge → List Gauge
  resolve_gauge none v gs = gs
  resolve_gauge (some (ns, name)) v gs =
      unregister (record { name = name; namespace = ns; resource = v }) gs

  -- `for k, v := range missingResourceNameToKind`
  unfoldable pub resolve : Map Missing → Map Missing → Checker → Checker
  resolve found [] c = c
  resolve found ((k, v) ∷ entries) c = resolve found entries (
      if is_some (lookup k found)
      then c
      else record { gauges = resolve_gauge (t.split k) v c.gauges; missing = delete k c.missing })

  unfoldable pub accept : Map Missing → Checker → Checker
  accept found c =
      let c' = resolve found c.missing c in record c' { missing = copy c'.missing found }

module _ {E : Type 0} (t : Texts) (api : Api E) (ignore_job_pod : Bool) where
  pod_keys : List Pod → List String
  unfolding add_key
  pod_keys [] = []
  pod_keys (p ∷ ps) =
      let rest = pod_keys ps in
      if not (is_target_pod ignore_job_pod p) then rest else add_key (t.key p.namespace p.name) rest

  unfoldable pub get_pods : Result E (List String)
  unfolding pod_keys
  get_pods = on_result api.list_pods (λ ps. ok (pod_keys ps)) (λ e. err e)

  cep_keys : List (String × String) → List String
  unfolding add_key
  cep_keys [] = []
  cep_keys ((ns, name) ∷ cs) = add_key (t.key ns name) (cep_keys cs)

  unfoldable pub get_ceps : Result E (List String)
  unfolding cep_keys
  get_ceps = on_result api.list_ceps (λ cs. ok (cep_keys cs)) (λ e. err e)

  -- The second look at the CiliumEndpoint, once it is known whether the pod exists.
  look_at_cep : String → String → Bool → Result E (Option Missing)
  unfolding compare_existence
  look_at_cep ns name pod_exist =
      on_result (api.get_cep ns name) (λ u. ok (compare_existence pod_exist true))
        (λ e. if api.is_not_found e then ok (compare_existence pod_exist false) else err e)

  -- What `check` finds out about a namespace and a name.
  unfoldable pub verdict : String → String → Result E (Option Missing)
  unfolding look_at_cep
  verdict ns name =
      on_result (api.get_pod ns name)
        (λ p. if is_target_pod ignore_job_pod p then look_at_cep ns name true else ok none)
        (λ e. if api.is_not_found e then look_at_cep ns name false else err e)

  -- `check`: the gauge of what is missing is registered.
  report :
      String → String → Result E (Option Missing) → Exec (List Gauge) (Failure E) (Option Missing)
  report ns name (err e) gs = (err (failed e), gs)
  report ns name (ok none) gs = (ok none, gs)
  report ns name (ok (some m)) gs =
      (ok (some m), register (record { name = name; namespace = ns; resource = m }) gs)

  check_parts : Option (String × String) → Exec (List Gauge) (Failure E) (Option Missing)
  unfolding report
  check_parts none gs = (err index_out_of_range, gs)
  check_parts (some (ns, name)) gs = report ns name (verdict ns name) gs

  unfoldable pub check : String → Exec (List Gauge) (Failure E) (Option Missing)
  unfolding check_parts
  check k = check_parts (t.split k)

  -- One of the two loops of `checkAll`: the keys that are not among the others are checked again.
  unfoldable pub check_keys :
      List String → List String → Map Missing → Exec (List Gauge) (Failure E) (Map Missing)
  check_keys [] others found = pure found
  check_keys (k ∷ ks) others found =
      let rest = check_keys ks others found in
      let checked = check k >>= λ res. check_keys ks others (note k res found) in
      if contains others k then rest else checked

  unfoldable pub check_all : Exec (List Gauge) (Failure E) (Map Missing)
  check_all gs =
      on_result get_pods
        (λ pods.
          on_result get_ceps
            (λ ceps. (check_keys pods ceps [] >>= λ found. check_keys ceps pods found) gs)
            (λ e. (err (failed e), gs)))
        (λ e. (err (failed e), gs))

  -- The body of the loop of `cmdMain`.
  unfoldable pub pass : Checker → Checker
  pass c =
      let (r, gs) = check_all c.gauges in
      let c' = record c { gauges = gs } in on_result r (λ found. accept t found c') (λ e. c')
