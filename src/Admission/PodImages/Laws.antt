-- ===== src/Admission/PodImages/Laws.antt =====
-- Which pods the image validator admits, and with which warnings.
use mathlib.Core.List.{append-nil, append_assoc}
use neco_containers.Base.{
  ◌≡◌, refl, ap, ◌∙◌, ◌↔◌, inl, inr, Bool, true, false, List, [], ◌∷◌, ◌++◌, String, ok, All, arith,
  Bool-cases, if◌then◌else◌,
}
use neco_containers.Admission.Response.{Response, is_allowed, allowed, allowed_with_warnings}
use neco_containers.Admission.PodImages.{Pod, Reason, is_trusted, check_images, images, handle}

module _ (has_prefix : String → String → Bool) (warning : String → String)
    (valid_prefixes : List String) where
  abbrev pub IsTrusted : String → Type 0
  IsTrusted image = is_trusted has_prefix valid_prefixes image ≡ true

  check_images_strict :
      (l : List String)
      → (is_allowed (check_images has_prefix warning valid_prefixes false l []) ≡ true)
        ↔ All IsTrusted l
  unfolding check_images
  check_images_strict [] = ((λ h. tt), (λ h. refl))
  check_images_strict (x ∷ xs) =
      ((λ h. ground (arith, check_images_strict xs)), (λ h. ground (arith, check_images_strict xs)))

  abbrev pub with_warnings : List String → Response Reason Pod
  with_warnings [] = allowed
  with_warnings (w ∷ ws) = allowed_with_warnings (w ∷ ws)

  -- The warnings of the images that are not trusted, in order.
  abbrev pub untrusted : List String → List String
  untrusted [] = []
  untrusted (x ∷ xs) =
      let rest = untrusted xs in
      if is_trusted has_prefix valid_prefixes x then rest else warning x ∷ rest

  check_images_permissive :
      (l ws : List String)
      → check_images has_prefix warning valid_prefixes true l ws ≡ with_warnings (ws ++ untrusted l)
  unfolding check_images
  check_images_permissive [] [] = refl
  check_images_permissive [] (w ∷ ws) = rw append-nil
  check_images_permissive (x ∷ xs) ws = elim (Bool-cases (is_trusted has_prefix valid_prefixes x)) [
    | inl e ↦ rw e (check_images_permissive xs ws)
    | inr e ↦ rw e (
        check_images_permissive xs (ws ++ warning x ∷ [])
        ∙ ap with_warnings (append_assoc ws (warning x ∷ []) (untrusted xs)))
  ]

  -- Where the validator is not permissive, a decoded pod is admitted exactly when each image of its
  -- containers, init containers and ephemeral containers has a valid prefix; where it is permissive,
  -- every decoded pod is admitted, with a warning for each image without one, in their order.
  handle-images :
      (E : Type 0) (po : Pod)
      → ((is_allowed (handle has_prefix warning valid_prefixes false {E = E} (ok po)) ≡ true)
          ↔ All IsTrusted (images po))
        × (handle has_prefix warning valid_prefixes true {E = E} (ok po)
            ≡ with_warnings (untrusted (images po)))
  unfolding handle
  handle-images E po = (check_images_strict _, check_images_permissive _ [])
