-- ===== src/Admission/HttpProxy/Laws.antt =====
-- What the two webhooks on HTTPProxy guarantee together.
use neco_containers.Base.{
  ◌≡◌, ◌≢◌, refl, ◌∙◌, ◌↔◌, ◌⊎◌, inl, true, Option, none, some, String, eq_iff, Result, ok, err,
  Map, lookup, get_text, or_empty, on_result, arith,
}
use neco_containers.Admission.Response.{is_allowed, errored, bad_request}
use neco_containers.Admission.HttpProxy.Validator.{
  View, update, kubernetes_ingress_class, contour_ingress_class, ip_policy, compare_update,
  ip_policy_kept, validate,
}

-- The update from one object to another leaves the ingress class, as each of its three places shows
-- it, and an IP policy that is there.
pub record KeepsClass (old_ann : Map String) (old_field : Option String) (new_ann : Map String)
    (new_field : Option String) : Type 0 where
  pub kubernetes :
      get_text kubernetes_ingress_class new_ann ≡ get_text kubernetes_ingress_class old_ann
  pub contour : get_text contour_ingress_class new_ann ≡ get_text contour_ingress_class old_ann
  pub field : or_empty new_field ≡ or_empty old_field
  pub policy :
      (lookup ip_policy old_ann ≡ none)
      ⊎ (lookup ip_policy old_ann ≡ some (get_text ip_policy new_ann))

module _ (old_ann : Map String) (old_field : Option String) (new_ann : Map String)
    (new_field : Option String) where
  policy_kept_iff :
      (o : Option String) (new : String)
      → (ip_policy_kept o new ≡ true) ↔ ((o ≡ none) ⊎ (o ≡ some new))
  unfolding ip_policy_kept
  policy_kept_iff none new = ((λ h. inl refl), (λ h. refl))
  policy_kept_iff (some old) new =
      ((λ h. ground (arith, eq_iff old new)), (λ h. ground (arith, eq_iff old new)))

  compare_update_iff :
      (is_allowed (compare_update new_ann (or_empty new_field) old_ann (or_empty old_field)) ≡ true)
      ↔ KeepsClass old_ann old_field new_ann new_field
  unfolding compare_update
  compare_update_iff =
      let k = policy_kept_iff (lookup ip_policy old_ann) (get_text ip_policy new_ann) in
      let a =
        eq_iff (get_text kubernetes_ingress_class new_ann)
          (get_text kubernetes_ingress_class old_ann) in
      let b =
        eq_iff (get_text contour_ingress_class new_ann) (get_text contour_ingress_class old_ann) in
      let c = eq_iff (or_empty new_field) (or_empty old_field) in
      ((λ h. ground (arith, a, b, c, k)), (λ h. ground (arith, a, b, c, k)))

abbrev FieldIs : {E : Type 0} → Result E (Option String) → String → Type 0
FieldIs (ok field) f = or_empty field ≡ f
FieldIs (err e) f = ⊥

-- An object shows the ingress class by the texts of its two annotations and of its field.
pub record ClassIs {E : Type 0} (v : View E) (kubernetes contour field : String) : Type 0 where
  pub of_kubernetes : get_text kubernetes_ingress_class v.annotations ≡ kubernetes
  pub of_contour : get_text contour_ingress_class v.annotations ≡ contour
  pub of_field : FieldIs v.class_field field

module _ {E : Type 0} (old new : View E) where
  compare_results :
      (f g : Result E (Option String))
      → is_allowed (
          on_result g
            (λ n.
              on_result f
                (λ m. compare_update new.annotations (or_empty n) old.annotations (or_empty m))
                (λ e. errored bad_request))
            (λ e. errored bad_request))
        ≡ true
      → (m : Option String) × (n : Option String) × (f ≡ ok m)
        × (g ≡ ok n)
        × KeepsClass old.annotations m new.annotations n
  compare_results (ok m) (ok n) h =
      (m, n, refl, refl, (compare_update_iff old.annotations m new.annotations n).0 h)
  compare_results (err e) (ok n) h = cc
  compare_results f (err e) h = cc

  -- An update that the validator allows keeps the class and the policy.
  update_keeps :
      is_allowed (validate update (ok new) (ok old)) ≡ true
      → (m : Option String) × (n : Option String) × (old.class_field ≡ ok m)
        × (new.class_field ≡ ok n)
        × KeepsClass old.annotations m new.annotations n
  unfolding validate
  update_keeps h = compare_results old.class_field new.class_field h

-- The objects that follow one another by updates that the validator allows.
pub data History {E : Type 0} (a : View E) : View E → Type 0 where
  first : History a a
  followed :
      {b c : View E} → History a b → is_allowed (validate update (ok c) (ok b)) ≡ true → History a c

-- No sequence of updates that the validator allows changes the ingress class that an object shows.
pub History-ClassIs :
    {E : Type 0} {a b : View E} (k c f : String) → History a b → ClassIs a k c f → ClassIs b k c f
History-ClassIs k c f first h = h
History-ClassIs {a = a} k c f (followed {b = b} {c = d} t allowed) h =
    let before = History-ClassIs k c f t h in
    let (m, n, e, e', kept) = update_keeps b d allowed in
    record {
      of_kubernetes = kept.kubernetes ∙ before.of_kubernetes;
      of_contour = kept.contour ∙ before.of_contour;
      of_field = rw e' (kept.field ∙ (rw e at before.of_field));
    }

-- An IP policy that is not empty, once an object has it, is never changed or removed by a sequence
-- of updates that the validator allows.
pub History-policy :
    {E : Type 0} {a b : View E} (p : String)
    → History a b
    → p ≢ ""
    → lookup ip_policy a.annotations ≡ some p
    → lookup ip_policy b.annotations ≡ some p
unfolding get_text
History-policy p first ne h = h
History-policy p (followed {b = b} {c = d} t allowed) ne h =
    let before = History-policy p t ne h in
    let (m, n, e, e', kept) = update_keeps b d allowed in ground (arith, kept.policy)
