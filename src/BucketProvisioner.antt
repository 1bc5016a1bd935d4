-- ===== src/BucketProvisioner.antt =====
-- bucket-provisioner-light/bucketprovisioner: the configuration in config.go, and the operations of
-- provisioner.go on the S3 service.
pub mod NewConfig
pub mod Laws
use neco_containers.Base.{
  ℕ, zero, suc, String, Bool, true, false, Option, none, some, Result, ok, err, Exec, pure, proceed,
  List, [], ◌∷◌, Map, if◌then◌else◌,
}
use neco_containers.BucketProvisioner.NewConfig.{Config}

-- A page of the list of a bucket: the keys, and the token of the next page.
pub record Page (Token : Type 0) : Type 0 where
  pub contents : List String
  pub next : Option Token

-- The calls of the S3 client. The paginator asks for the first page without a token, and has more
-- pages as long as a page has a token.
pub record S3 (W E Token : Type 0) : Type 0 where
  pub head_bucket : String → Exec W E (Unit {0})
  pub create_bucket : String → Exec W E (Unit {0})
  pub delete_bucket : String → Exec W E (Unit {0})
  pub list_page : String → Option Token → Exec W E (Page Token)
  pub delete_objects : String → List String → Exec W E (Unit {0})
  pub is_already_owned : E → Bool
  pub is_no_such_bucket : E → Bool

pub record ObjectBucket : Type 0 where
  pub bucket_host : String
  pub bucket_port : ℕ
  pub bucket_name : String
  pub region : String
  pub additional_config : Map String
  pub access_key_id : String
  pub secret_access_key : String
  pub additional_state : Map String

module _ {W E Token : Type 0} (s3 : S3 W E Token) where
  after_create : Result E (Unit {0}) × W → Result E (Unit {0}) × W
  after_create (ok u, w) = (ok tt, w)
  after_create (err e, w) = if s3.is_already_owned e then (ok tt, w) else (err e, w)

  after_head : String → Result E (Unit {0}) × W → Result E (Unit {0}) × W
  unfolding after_create
  after_head bucket (ok u, w) = (ok tt, w)
  after_head bucket (err e, w) = after_create (s3.create_bucket bucket w)

  unfoldable pub ensure_bucket : String → Exec W E (Unit {0})
  unfolding after_head
  ensure_bucket bucket w = after_head bucket (s3.head_bucket bucket w)

  -- The deletion of what a page lists, which is left out for an empty page.
  unfoldable pub delete_page : String → List String → Exec W E (Unit {0})
  delete_page bucket [] = pure tt
  delete_page bucket (k ∷ ks) = s3.delete_objects bucket (k ∷ ks)

  page_of : Result E (Page Token) × W → String → Result E (Option Token) × W
  unfolding delete_page
  page_of (err e, w) bucket = (if s3.is_no_such_bucket e then ok none else err e, w)
  page_of (ok page, w) bucket = proceed (delete_page bucket page.contents w) (λ u. pure page.next)

  -- One turn of the loop over the pages: the token of the next page, and none where the loop ends.
  unfoldable pub delete_one_page : String → Option Token → Exec W E (Option Token)
  unfolding page_of
  delete_one_page bucket token w = page_of (s3.list_page bucket token w) bucket

  -- The loop, from the given token on; `none` is a lack of fuel.
  unfoldable pub delete_all_objects :
      ℕ → String → Option Token → W → Option (Result E (Unit {0}) × W)
  unfolding delete_one_page
  delete_all_objects zero bucket token w = none
  delete_all_objects (suc fuel) bucket token w =
      let (r, v) = delete_one_page bucket token w in
      elim r [
        | err e ↦ some (err e, v)
        | ok none ↦ some (ok tt, v)
        | ok (some next) ↦ delete_all_objects fuel bucket (some next) v
      ]

  after_delete : Result E (Unit {0}) × W → Result E (Unit {0}) × W
  after_delete (ok u, w) = (ok tt, w)
  after_delete (err e, w) = if s3.is_no_such_bucket e then (ok tt, w) else (err e, w)

  after_objects : String → Result E (Unit {0}) × W → Result E (Unit {0}) × W
  unfolding after_delete
  after_objects bucket (ok u, w) = after_delete (s3.delete_bucket bucket w)
  after_objects bucket (err e, w) = (err e, w)

  -- `Delete`
  unfoldable pub delete : ℕ → String → W → Option (Result E (Unit {0}) × W)
  unfolding delete_all_objects after_objects
  delete fuel bucket w = elim (delete_all_objects fuel bucket none w) [
    | none ↦ none
    | some p ↦ some (after_objects bucket p)
  ]

  module _ {D : Type 0} (cfg : Config D) where
    unfoldable pub object_bucket : String → ObjectBucket
    object_bucket bucket = record {
      bucket_host = cfg.endpoint.host;
      bucket_port = cfg.endpoint.port;
      bucket_name = bucket;
      region = "dummy-region";
      additional_config = [];
      access_key_id = cfg.access_key_id;
      secret_access_key = cfg.secret_access_key;
      additional_state = [];
    }

    -- `Provision`
    unfoldable pub provision : String → Exec W E ObjectBucket
    unfolding ensure_bucket object_bucket
    provision bucket w = proceed (ensure_bucket bucket w) (λ u. pure (object_bucket bucket))
