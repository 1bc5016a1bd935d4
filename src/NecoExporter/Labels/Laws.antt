-- ===== src/NecoExporter/Labels/Laws.antt =====
-- The value of a label when keys collide.
use neco_containers.Base.{
  ◌≡◌, refl, ◌∙◌, String, ◌==◌, eq_iff, not, ◌&&◌, Option, none, some, List, [], ◌∷◌, Map, lookup,
  insert, lookup-insert, is_some, ap, sym, inl, inr, Bool-cases, if◌then◌else◌,
}
use neco_containers.NecoExporter.Labels.{
  Codes, sanitize_label_name, conflicted_label_value, add_labels, security_labels_to_prom_labels,
}

-- The value of a label from the values of the keys that have its name.
unfoldable pub verdict : List String → Option String
verdict [] = none
verdict (v ∷ []) = some v
verdict (v ∷ w ∷ vs) = some conflicted_label_value

merge : Option String → List String → Option String
merge o [] = o
merge none (v ∷ vs) = merge (some v) vs
merge (some u) (v ∷ vs) = merge (some conflicted_label_value) vs

merge-conflicted :
    (vs : List String) → merge (some conflicted_label_value) vs ≡ some conflicted_label_value
unfolding merge
merge-conflicted [] = refl
merge-conflicted (v ∷ vs) = merge-conflicted vs

merge-cons :
    (o : Option String) (v : String) (vs : List String)
    → merge o (v ∷ vs) ≡ merge (some (if is_some o then conflicted_label_value else v)) vs
unfolding merge
merge-cons none v vs = refl
merge-cons (some u) v vs = refl

merge-none : (vs : List String) → merge none vs ≡ verdict vs
unfolding merge verdict
merge-none [] = refl
merge-none (v ∷ []) = refl
merge-none (v ∷ w ∷ vs) = merge-conflicted vs

module _ (c : Codes) (name : String) where
  -- The values of the keys that become the name, without the key of the namespace.
  unfoldable pub values : Map String → List String
  values [] = []
  values ((k, v) ∷ rest) =
      let others = values rest in
      if not (k == "k8s:io.kubernetes.pod.namespace") && (sanitize_label_name c k == name)
      then v ∷ others
      else others

  lookup-add_labels :
      (m labels : Map String)
      → lookup name (add_labels c m labels) ≡ merge (lookup name labels) (values m)
  unfolding add_labels values merge
  lookup-add_labels [] labels = refl
  lookup-add_labels ((k, v) ∷ rest) labels =
      let at = sanitize_label_name c k in
      let value = if is_some (lookup at labels) then conflicted_label_value else v in
      elim (Bool-cases (k == "k8s:io.kubernetes.pod.namespace")) [
        | inl e ↦ rw e (lookup-add_labels rest labels)
        | inr e ↦ elim (Bool-cases (at == name)) [
          | inr d ↦
              rw (e, d)
                (lookup-add_labels rest (insert at value labels)
                  ∙ ap (λ o. merge o (values rest)) (rw d at (lookup-insert at name value labels)))
          | inl d ↦
              rw (e, d)
                (lookup-add_labels rest (insert at value labels)
                  ∙ ap (λ o. merge o (values rest)) (rw d at (lookup-insert at name value labels))
                  ∙ ap
                      (λ x.
                        merge
                          (some (if is_some (lookup x labels) then conflicted_label_value else v))
                          (values rest))
                      ((eq_iff at name).0 d)
                  ∙ sym (merge-cons (lookup name labels) v (values rest)))
        ]
      ]

  -- A label has the value of the one key that becomes its name, whatever the order of the keys: it is
  -- missing where no key does, and has the value that marks a conflict where two keys or more do.
  -- The key of the namespace does not count.
  pub lookup-security_labels_to_prom_labels :
      (m : Map String) → lookup name (security_labels_to_prom_labels c m) ≡ verdict (values m)
  unfolding security_labels_to_prom_labels lookup
  lookup-security_labels_to_prom_labels m = lookup-add_labels m [] ∙ merge-none (values m)
