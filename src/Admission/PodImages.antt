-- ===== src/Admission/PodImages.antt =====
-- The test of image names, admission/hooks/validate_pod.go.
pub mod Laws
use neco_containers.Base.{
  Bool, true, false, List, [], ◌∷◌, ◌++◌, map, String, Result, on_result, any, if◌then◌else◌,
}
use neco_containers.Admission.Response.{
  Response, allowed, allowed_with_warnings, denied, errored, bad_request,
}

-- The image names of a pod's three lists of containers.
pub record Pod : Type 0 where
  pub containers : List String
  pub init_containers : List String
  pub ephemeral_containers : List String

-- "untrustworthy image " and the name
pub data Reason : Type 0 where
  untrustworthy : String → Reason

-- `has_prefix` is strings.HasPrefix.
unfoldable pub is_trusted : (String → String → Bool) → List String → String → Bool
is_trusted has_prefix valid_prefixes image = any (has_prefix image) valid_prefixes

abbrev pub images : Pod → List String
images po = po.containers ++ (po.init_containers ++ po.ephemeral_containers)

-- `warning` makes the text of the warning of an image.
module _ (has_prefix : String → String → Bool) (warning : String → String)
    (valid_prefixes : List String) (image_permissive : Bool) where
  -- The labelled loop over the images, with the warnings so far.
  unfoldable pub check_images : List String → List String → Response Reason Pod
  check_images [] [] = allowed
  check_images [] (w ∷ ws) = allowed_with_warnings (w ∷ ws)
  check_images (image ∷ images) warnings =
      let next = check_images images warnings in
      let warned = check_images images (warnings ++ warning image ∷ []) in
      if is_trusted has_prefix valid_prefixes image
      then next
      else if image_permissive
      then warned
      else denied (untrustworthy image)

  unfoldable pub handle : {E : Type 0} → Result E Pod → Response Reason Pod
  handle request = on_result request (λ po. check_images (images po) []) (λ e. errored bad_request)
