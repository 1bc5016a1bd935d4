-- ===== src/Examples/Targets.antt =====
-- cep-checker, at a small cluster.
use neco_containers.Base.{
  ℕ, ◌≡◌, refl, ◌↔◌, inl, true, false, [], ◌∷◌, none, some, ◌==◌, ok, err, Map, lookup, on_result,
  if◌then◌else◌,
}
use neco_containers.CepChecker.{
  Pod, Missing, cep, pod, Gauge, Checker, Texts, Api, check_all, verdict, accept, pass, same_gauge,
}
use neco_containers.CepChecker.Recorded.{lookup-pass}
use neco_containers.CepChecker.Verdict.{verdict_iff, IsTarget, IsGone, IsThere}
use neco_containers.CepChecker.Gauges.{is_registered, is_registered-accept-found}

abbrev web : Pod
web = record {
  namespace = "team";
  name = "web";
  host_network = false;
  phase = "Running";
  pod_ip = "10.64.0.1";
  owner_kinds = [];
}

abbrev texts : Texts
texts = record {
  key = λ ns name. if name == "web" then "team/web" else "team/old";
  split = λ k. if k == "team/web" then some ("team", "web") else none;
}

-- One pod without an endpoint.
abbrev api : Api ℕ
api = record {
  list_pods = ok (web ∷ []);
  list_ceps = ok [];
  get_pod = λ ns name. ok web;
  get_cep = λ ns name. err 404;
  is_not_found = λ e. true;
}

abbrev gauge : Gauge
gauge = record { name = "web"; namespace = "team"; resource = cep }

abbrev checker : Checker
checker = record { gauges = gauge ∷ []; missing = ("team/web", cep) ∷ [] }

lookup-pass_example :
    lookup "team/web" (pass texts api false checker).missing
    ≡ on_result
        (check_all texts api false checker.gauges).0
        (λ found. lookup "team/web" found)
        (λ e. lookup "team/web" checker.missing)
lookup-pass_example = lookup-pass texts api false checker "team/web"

verdict_iff_example :
    ((verdict texts api false "team" "web" ≡ ok (some cep)) ↔ (
      IsTarget false (api.get_pod "team" "web")
      × IsGone api.is_not_found (api.get_cep "team" "web")))
    × ((verdict texts api false "team" "web" ≡ ok (some pod))
        ↔ (IsGone api.is_not_found (api.get_pod "team" "web") × IsThere (api.get_cep "team" "web")))
verdict_iff_example = verdict_iff texts api false "team" "web"

-- The endpoint was missing before, and now the pod is.
abbrev found : Map Missing
found = ("team/web", pod) ∷ []

is_registered-accept-found_example : is_registered gauge (accept texts found checker).gauges ≡ true
unfolding lookup same_gauge
is_registered-accept-found_example =
    is_registered-accept-found texts found gauge "team/web" "team" "web" checker refl refl refl
      (inl refl, tt) refl
