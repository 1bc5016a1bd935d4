-- ===== src/Admission/Deletion/Laws.antt =====
-- When a deletion is allowed.
use neco_containers.Base.{
  ◌≡◌, ◌≢◌, refl, ◌↔◌, ◌⊎◌, inl, inr, true, false, List, [], ◌∷◌, Option, none, some, String, ◌==◌,
  Bool-cases, eq_iff, Result, ok, err, Map, lookup, get_text, get_text_iff, on_result, All, arith,
  if◌then◌else◌,
}
use neco_containers.Admission.Response.{is_allowed, errored, internal_server_error}
use neco_containers.Admission.Deletion.{
  Object, ProtectedResource, Cluster, annotation_for_delete, ann_prevent_key,
  ann_prevent_value_delete, accurate_user, topolvm_user, handle_delete, check_confirmed,
  handle_prevent_delete, first_protected, check_items, Answer, check_resources,
  handle_namespace_deletion,
}

-- The API server returned the namespace, and it has the development label.
abbrev pub IsDevelopment : {E : Type 0} → Result E (Map String) → Type 0
IsDevelopment (ok labels) = lookup "development" labels ≡ some "true"
IsDevelopment (err e) = ⊥

abbrev DevelopmentLabels : {E : Type 0} → Result E (Map String) → Type 0
DevelopmentLabels (ok labels) =
    ((get_text "development" labels == "true") ≡ true) ↔ (lookup "development" labels ≡ some "true")
DevelopmentLabels (err e) = Unit

development_labels : {E : Type 0} (r : Result E (Map String)) → DevelopmentLabels r
development_labels (ok labels) = get_text_iff "development" "true" labels refl
development_labels (err e) = tt

module _ {E : Type 0} (namespace_labels : String → Result E (Map String)) (obj : Object) where
  abbrev IsExempt : Option String → Type 0
  IsExempt o =
      (o ≡ some obj.name) ⊎ ((obj.namespace ≢ "") × IsDevelopment (namespace_labels obj.namespace))

  check_confirmed_iff :
      (o : Option String)
      → (is_allowed (check_confirmed namespace_labels obj o) ≡ true) ↔ IsExempt o
  unfolding check_confirmed
  check_confirmed_iff none =
      let d = development_labels (namespace_labels obj.namespace) in
      (
        (λ h. ground (arith, d, eq_iff obj.namespace "")),
        (λ h. ground (arith, d, eq_iff obj.namespace "")),
      )
  check_confirmed_iff (some val) =
      let d = development_labels (namespace_labels obj.namespace) in
      (
        (λ h. ground (arith, d, eq_iff val obj.name, eq_iff obj.namespace "")),
        (λ h. ground (arith, d, eq_iff val obj.name, eq_iff obj.namespace "")),
      )

-- The deletion of a decoded object by a user is allowed exactly when the user is the controller of
-- accurate, or the object is annotated with its own name, or it lives in a namespace that the API
-- server returns with the development label.
handle_delete_iff :
    {E : Type 0} (namespace_labels : String → Result E (Map String)) (user_name : String)
    (obj : Object)
    → (is_allowed (handle_delete namespace_labels user_name (ok obj)) ≡ true) ↔ (
        (user_name ≡ accurate_user)
        ⊎ (lookup annotation_for_delete obj.annotations ≡ some obj.name)
        ⊎ ((obj.namespace ≢ "") × IsDevelopment (namespace_labels obj.namespace)))
unfolding handle_delete
handle_delete_iff nl u obj =
    let k = check_confirmed_iff nl obj (lookup annotation_for_delete obj.annotations) in
    elim (Bool-cases (u == accurate_user)) [
      | inl e ↦ rw e ((λ h. inl ((eq_iff u accurate_user).0 e)), (λ h. refl))
      | inr e ↦ rw e (
        (λ h. inr (k.0 h)),
        λ h. elim h [ inl p ↦ cc (e, (eq_iff u accurate_user).1 p) | inr q ↦ k.1 q ],
      )
    ]

-- A deletion of a decoded object is denied by the prevention hook exactly when the object carries
-- the annotation prevent=delete, unless it is a PersistentVolumeClaim that the topolvm controller
-- deletes.
handle_prevent_delete_iff :
    (E : Type 0) (user_name : String) (obj : Object)
    → (is_allowed (handle_prevent_delete {E = E} user_name (ok obj)) ≡ false) ↔ (
        (lookup ann_prevent_key obj.annotations ≡ some ann_prevent_value_delete)
        × ((obj.kind ≢ "PersistentVolumeClaim") ⊎ (user_name ≢ topolvm_user)))
unfolding handle_prevent_delete
handle_prevent_delete_iff E u obj =
    let t = get_text_iff ann_prevent_key ann_prevent_value_delete obj.annotations refl in
    (
      λ h. ground (arith, t, eq_iff obj.kind "PersistentVolumeClaim", eq_iff u topolvm_user),
      λ h. ground (arith, t, eq_iff obj.kind "PersistentVolumeClaim", eq_iff u topolvm_user),
    )

abbrev IsPlain : Object → Type 0
IsPlain obj = lookup ann_prevent_key obj.annotations ≢ some ann_prevent_value_delete

module _ {E Kind : Type 0} (c : Cluster E Kind) (ns : String) where
  first_protected_iff : (objs : List Object) → (first_protected c objs ≡ none) ↔ All IsPlain objs
  unfolding first_protected
  first_protected_iff [] = ((λ h. tt), (λ h. refl))
  first_protected_iff (obj ∷ objs) =
      let t = get_text_iff ann_prevent_key ann_prevent_value_delete obj.annotations refl in
      (
        (λ h. ground (arith, t, first_protected_iff objs)),
        (λ h. ground (arith, t, first_protected_iff objs)),
      )

  -- The resource is not registered, or its list in the namespace can be read and holds no
  -- protected object.
  abbrev ListIsClear : Result E (List Object) → Type 0
  ListIsClear (ok items) = All IsPlain items
  ListIsClear (err e) = ⊥

  abbrev KindIsClear : Result E Kind → Type 0
  KindIsClear (ok kind) = ListIsClear (c.list kind ns)
  KindIsClear (err e) = c.is_no_match e ≡ true

  abbrev pub IsClear : ProtectedResource → Type 0
  IsClear r = KindIsClear (c.kind_for r)

  check_list :
      (r : ProtectedResource) (l : Result E (List Object)) (rest : Answer)
      → (is_allowed (
            on_result l
              (λ items. check_items c r ns (first_protected c items) rest)
              (λ e. errored internal_server_error))
          ≡ true)
        ↔ (ListIsClear l × (is_allowed rest ≡ true))
  unfolding check_items
  check_list r (ok items) rest = (
    (λ h. ground (arith, first_protected_iff items)),
    (λ h. ground (arith, first_protected_iff items)),
  )
  check_list r (err e) rest = ((λ h. cc), (λ h. absurd h.0))

  check_kind :
      (r : ProtectedResource) (k : Result E Kind) (rest : Answer)
      → (is_allowed (
            on_result k
              (λ kind.
                on_result
                  (c.list kind ns)
                  (λ items. check_items c r ns (first_protected c items) rest)
                  (λ e. errored internal_server_error))
              (λ e. if c.is_no_match e then rest else errored internal_server_error))
          ≡ true)
        ↔ (KindIsClear k × (is_allowed rest ≡ true))
  check_kind r (ok kind) rest = check_list r (c.list kind ns) rest
  check_kind r (err e) rest = ((λ h. ground arith), (λ h. ground arith))

  check_resources_iff :
      (rs : List ProtectedResource) → (is_allowed (check_resources c ns rs) ≡ true) ↔ All IsClear rs
  unfolding check_resources
  check_resources_iff [] = ((λ h. tt), (λ h. refl))
  check_resources_iff (r ∷ rs) =
      let k = check_kind r (c.kind_for r) (check_resources c ns rs) in
      let ih = check_resources_iff rs in
      ((λ h. let (a, b) = k.0 h in (a, ih.0 b)), (λ h. k.1 (h.0, ih.1 h.1)))

-- The deletion of a namespace is allowed exactly when each configured resource is unknown to the
-- REST mapper, or else is listed in the namespace without an error and no listed object carries the
-- annotation prevent=delete.
pub handle_namespace_deletion_iff :
    {E Kind : Type 0} (c : Cluster E Kind) (resources : List ProtectedResource) (ns : String)
    → (is_allowed (handle_namespace_deletion c resources (ok ns)) ≡ true)
      ↔ All (IsClear c ns) resources
unfolding handle_namespace_deletion
handle_namespace_deletion_iff c resources ns = check_resources_iff c ns resources
