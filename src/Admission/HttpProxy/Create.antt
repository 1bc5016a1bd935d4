-- ===== src/Admission/HttpProxy/Create.antt =====
-- The mutator of HTTPProxy makes objects that the validator lets be created.
use neco_containers.Base.{
  ◌≡◌, ◌≢◌, refl, ◌⊎◌, inl, inr, true, false, List, Option, none, some, String, ◌==◌, eq_iff,
  Result, ok, err, Result-cases, lookup, get_text, or_empty, arith, Option-cases, Bool-cases,
  is_some, on_result, and_then, subst, ℕ,
}
use neco_containers.Admission.Response.{Response, allowed, patched, errored, internal_server_error}
use neco_containers.Admission.HttpProxy.Validator.{
  View, create, kubernetes_ingress_class, contour_ingress_class, ip_policy, validate,
}
use neco_containers.Admission.HttpProxy.Policies.{IpPolicy, Policy, get_http_proxy_policy}
use neco_containers.Admission.HttpProxy.Mutator.{
  Objects, mutate_class_field, mutate_policy, mutate, set_policy_field, patch_routes, apply_policy,
}

-- The documented behaviour of SetNestedField: the field has the value that was set, setting the
-- class changes no annotation, and setting the routes changes neither annotations nor class.
pub record IsLawful {Obj Route Json E : Type 0} (o : Objects Obj Route Json E) : Type 0 where
  pub class_annotations :
      (hp hp' : Obj) (n : String)
      → o.set_class_field hp n ≡ ok hp'
      → (o.view hp').annotations ≡ (o.view hp).annotations
  pub class_set :
      (hp hp' : Obj) (n : String)
      → o.set_class_field hp n ≡ ok hp'
      → (o.view hp').class_field ≡ ok (some n)
  pub routes_view :
      (hp hp' : Obj) (rs : List Route) → o.set_routes hp rs ≡ ok hp' → o.view hp' ≡ o.view hp

-- The object shows a class, and its field is a text or missing.
abbrev HasClass : {E : Type 0} → View E → Type 0
HasClass v =
    (field : Option String) × (v.class_field ≡ ok field)
    × ((get_text kubernetes_ingress_class v.annotations ≢ "")
        ⊎ (get_text contour_ingress_class v.annotations ≢ "")
        ⊎ (or_empty field ≢ ""))

module _ {Obj Route Json E : Type 0} (o : Objects Obj Route Json E) (law : IsLawful o) where
  -- The three ways through the first mutation: a class annotation, the field, or the default.
  data Way (d : String) (hp hp1 : Obj) (field : Option String) : Type 0 where
    kept :
        hp ≡ hp1
        → (is_some (lookup kubernetes_ingress_class (o.view hp).annotations) ≡ true)
          ⊎ (is_some (lookup contour_ingress_class (o.view hp).annotations) ≡ true)
          ⊎ (is_some field ≡ true)
        → Way d hp hp1 field
    defaulted : o.set_class_field hp d ≡ ok hp1 → Way d hp hp1 field

  way_of_set :
      (d : String) (hp hp1 : Obj) (field : Option String) (r : Result E Obj)
      → o.set_class_field hp d ≡ r
      → on_result {B = Result ℕ Obj} r (λ hp'. ok hp') (λ e. err internal_server_error) ≡ ok hp1
      → Way d hp hp1 field
  way_of_set d hp hp1 field (ok x) e h = let q : x ≡ hp1 = cc in defaulted (rw (← q) e)
  way_of_set d hp hp1 field (err x) e h = cc

  way :
      (d : String) (hp hp1 : Obj) (field : Option String)
      → d ≢ ""
      → (o.view hp).class_field ≡ ok field
      → mutate_class_field o d hp ≡ ok hp1
      → Way d hp hp1 field
  unfolding mutate_class_field
  way d hp hp1 field dn e h =
      let z : (d == "") ≡ false = ground (arith, eq_iff d "") in
      elim (Bool-cases (is_some (lookup kubernetes_ingress_class (o.view hp).annotations))) [
        | inl k ↦ kept (ground arith) (inl k)
        | inr k ↦
            elim (Bool-cases (is_some (lookup contour_ingress_class (o.view hp).annotations))) [
              | inl c ↦ kept (ground arith) (inr (inl c))
              | inr c ↦ elim (Bool-cases (is_some field)) [
                | inl f ↦ kept (ground arith) (inr (inr f))
                | inr f ↦
                    way_of_set d hp hp1 field (o.set_class_field hp d) refl
                      (rw (z, k, c, e, f) at h)
              ]
            ]
      ]

  mutate_class_field-HasClass :
      (d : String) (hp hp1 : Obj) (field : Option String)
      → d ≢ ""
      → (o.view hp).class_field ≡ ok field
      → lookup kubernetes_ingress_class (o.view hp).annotations ≢ some ""
      → lookup contour_ingress_class (o.view hp).annotations ≢ some ""
      → field ≢ some ""
      → Way d hp hp1 field
      → HasClass (o.view hp1)
  unfolding get_text
  mutate_class_field-HasClass d hp hp1 field dn e k c fn (kept same shown) =
      subst (λ x. HasClass (o.view x)) same
        (
          field,
          e,
          shows (lookup kubernetes_ingress_class (o.view hp).annotations)
              (lookup contour_ingress_class (o.view hp).annotations) field k c fn shown,
        )
    where
      shows :
          (a b f : Option String)
          → a ≢ some ""
          → b ≢ some ""
          → f ≢ some ""
          → (is_some a ≡ true) ⊎ (is_some b ≡ true) ⊎ (is_some f ≡ true)
          → (or_empty a ≢ "") ⊎ (or_empty b ≢ "") ⊎ (or_empty f ≢ "")
      shows a b f na nb nf (inl x) = inl (λ q. na (ground arith))
      shows a b f na nb nf (inr (inl x)) = inr (inl (λ q. nb (ground arith)))
      shows a b f na nb nf (inr (inr x)) = inr (inr (λ q. nf (ground arith)))
  mutate_class_field-HasClass d hp hp1 field dn e k c fn (defaulted set) =
      (some d, law.class_set hp hp1 d set, inr (inr dn))

  module _ (new : List IpPolicy) (hp hp' : Obj) where
    view_of_patch :
        (r : Result E (List Route))
        → and_then r (λ rs'. o.set_routes hp rs') ≡ ok hp'
        → o.view hp' ≡ o.view hp
    view_of_patch (ok rs') h = law.routes_view hp hp' rs' h
    view_of_patch (err e) h = cc

    view-set_policy_field : set_policy_field o hp new ≡ ok hp' → o.view hp' ≡ o.view hp
    unfolding set_policy_field
    view-set_policy_field h = elim (Result-cases (o.routes hp)) [
      | inl (none, e) ↦ ground arith
      | inl (some rs, e) ↦ view_of_patch (patch_routes o new rs) (rw e at h)
      | inr (x, e) ↦ ground arith
    ]

  view-apply_policy :
      (hp hp' : Obj) (p : Option Policy) → apply_policy o hp p ≡ ok hp' → o.view hp' ≡ o.view hp
  unfolding apply_policy
  view-apply_policy hp hp' none h = cc
  view-apply_policy hp hp' (some p) h =
      elim (Result-cases (set_policy_field o hp p.ip_allow_policy)) [
        | inl (x, e) ↦ view-set_policy_field p.ip_allow_policy hp hp' (ground arith)
        | inr (x, e) ↦ ground arith
      ]

  -- The second mutation changes nothing that the validator reads.
  view-mutate_policy :
      (policies : List Policy) (hp hp' : Obj)
      → mutate_policy o policies hp ≡ ok hp'
      → o.view hp' ≡ o.view hp
  unfolding mutate_policy
  view-mutate_policy policies hp hp' h =
      elim (Option-cases (lookup ip_policy (o.view hp).annotations)) [
        | inl e ↦ ground arith
        | inr (key, e) ↦
            view-apply_policy hp hp' (get_http_proxy_policy policies key)
              (rw (e, mutate_policy) at h)
      ]

  validate_create :
      (v : View E) (old : Result E (View E)) → HasClass v → validate create (ok v) old ≡ allowed
  unfolding validate
  validate_create v old (field, e, shown) = ground (
    arith,
    eq_iff (get_text kubernetes_ingress_class v.annotations) "",
    eq_iff (get_text contour_ingress_class v.annotations) "",
    eq_iff (or_empty field) "",
  )

  mutate_parts :
      (d : String) (policies : List Policy) (hp : Obj) {m : Obj}
      → mutate o (λ x. ok x) d policies (ok hp) ≡ patched m
      → (hp1 : Obj) × (mutate_class_field o d hp ≡ ok hp1) × (mutate_policy o policies hp1 ≡ ok m)
  unfolding mutate
  mutate_parts d policies hp {m} h = elim (Result-cases (mutate_class_field o d hp)) [
    | inl (hp1, e) ↦ (hp1, e, second hp1 (mutate_policy o policies hp1) refl (rw e at h))
    | inr (x, e) ↦ ground arith
  ]
    where
      second :
          (hp1 : Obj) (r : Result ℕ Obj)
          → mutate_policy o policies hp1 ≡ r
          → on_result {B = Response (Unit {0}) Obj} r (λ hp2. patched hp2) (λ code. errored code)
            ≡ patched m
          → mutate_policy o policies hp1 ≡ ok m
      second hp1 (ok x) e h = ground arith
      second hp1 (err x) e h = cc

  -- With a default class that is not empty, an HTTPProxy whose class annotations and class field are
  -- each missing or not empty, and whose field is no value of another type, is turned by the mutator,
  -- where it makes a patch, into one that the validator lets be created.
  pub mutate-validate_create :
      (default_class : String) (policies : List Policy) (hp : Obj) (field : Option String)
      (old : Result E (View E)) {m : Obj}
      → default_class ≢ ""
      → (o.view hp).class_field ≡ ok field
      → lookup kubernetes_ingress_class (o.view hp).annotations ≢ some ""
      → lookup contour_ingress_class (o.view hp).annotations ≢ some ""
      → field ≢ some ""
      → mutate o (λ x. ok x) default_class policies (ok hp) ≡ patched m
      → validate create (ok (o.view m)) old ≡ allowed
  mutate-validate_create d policies hp field old {m} dn e k c fn h =
      let (hp1, p, q) = mutate_parts d policies hp h in
      rw (view-mutate_policy policies hp1 m q) (
        validate_create (o.view hp1) old
          (mutate_class_field-HasClass d hp hp1 field dn e k c fn (way d hp hp1 field dn e p)))
