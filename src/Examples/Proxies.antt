-- ===== src/Examples/Proxies.antt =====
-- The webhooks on HTTPProxy, at concrete objects.
use mathlib.Core.List.{Memᴰ}
use neco_containers.Base.{
  ℕ, ◌≡◌, refl, ◌↔◌, ◌⊎◌, List, [], ◌∷◌, none, some, String, Result, ok, lookup, get_text, arith,
}
use neco_containers.Admission.Response.{allowed}
use neco_containers.Admission.HttpProxy.Validator.{
  View, contour_ingress_class, ip_policy, create, validate, compare_update,
}
use neco_containers.Admission.HttpProxy.Policies.{IpPolicy, uniq_ip_policies, uniq_ip_policies_mem}
use neco_containers.Admission.HttpProxy.Mutator.{Objects, mutate, mutate_class_field, mutate_policy}
use neco_containers.Admission.HttpProxy.Laws.{
  History, first, followed, ClassIs, History-ClassIs, History-policy,
}
use neco_containers.Admission.HttpProxy.Create.{IsLawful, mutate-validate_create}

abbrev office : IpPolicy
office = record { source = "Peer"; cidr = "10.0.0.0/8" }

abbrev partner : IpPolicy
partner = record { source = "Remote"; cidr = "192.0.2.0/24" }

abbrev as_listed : List IpPolicy → List IpPolicy
as_listed ps = ps

uniq_ip_policies_mem_example :
    Memᴰ partner (uniq_ip_policies as_listed (office ∷ []) (office ∷ partner ∷ []))
    ↔ (Memᴰ partner (office ∷ []) ⊎ Memᴰ partner (office ∷ partner ∷ []))
uniq_ip_policies_mem_example =
    uniq_ip_policies_mem as_listed (office ∷ []) (office ∷ partner ∷ []) partner
      (λ q l. ((λ m. m), (λ m. m)))

-- An object with a class and a policy, and the same with one more annotation.
abbrev before : View ℕ
before = record {
  annotations = (contour_ingress_class, "bastion") ∷ (ip_policy, "office") ∷ [];
  class_field = ok none;
}

abbrev after : View ℕ
after = record {
  annotations = ("note", "1") ∷ (contour_ingress_class, "bastion") ∷ (ip_policy, "office") ∷ [];
  class_field = ok none;
}

one_update : History before after
unfolding validate compare_update get_text lookup
one_update = followed first refl

before-ClassIs : ClassIs before "" "bastion" ""
unfolding get_text lookup
before-ClassIs = record { of_kubernetes = refl; of_contour = refl; of_field = refl }

History-ClassIs_example : ClassIs after "" "bastion" ""
History-ClassIs_example = History-ClassIs "" "bastion" "" one_update before-ClassIs

History-policy_example : lookup ip_policy after.annotations ≡ some "office"
unfolding lookup
History-policy_example = History-policy "office" one_update (λ e. cc) refl

-- Objects that are their views, without routes.
abbrev set_class : View ℕ → String → Result ℕ (View ℕ)
set_class v n = ok (record v { class_field = ok (some n) })

abbrev objects : Objects (View ℕ) (Unit {0}) IpPolicy ℕ
objects = record {
  view = λ v. v;
  set_class_field = set_class;
  routes = λ v. ok none;
  set_routes = λ v rs. ok v;
  route_policies = λ r. ok [];
  set_route_policies = λ r ps. ok r;
  decode_policy = λ p. ok p;
  encode_policy = λ p. ok p;
  iteration = as_listed;
}

objects-IsLawful : IsLawful objects
objects-IsLawful = record {
  class_annotations = λ hp hp' n e. ground arith;
  class_set = λ hp hp' n e. ground arith;
  routes_view = λ hp hp' rs e. ground arith;
}

abbrev bare : View ℕ
bare = record { annotations = []; class_field = ok none }

abbrev filled : View ℕ
filled = record { annotations = []; class_field = ok (some "forest") }

mutate-validate_create_example : validate create (ok filled) (ok bare) ≡ allowed
unfolding mutate mutate_class_field mutate_policy lookup
mutate-validate_create_example =
    mutate-validate_create objects objects-IsLawful "forest" [] bare none (ok bare) (λ e. cc) refl
      (λ e. cc) (λ e. cc) (λ e. cc) refl
