-- ===== src/BucketProvisioner/Laws.antt =====
-- The loop over the pages ends, and what a provision and a deletion leave.
use neco_containers.Base.{
  some_inv, ℕ, zero, suc, ◌≤◌, ◌<◌, ◌≡◌, refl, sym, ap, ◌∙◌, subst, String, Bool, true, false, inl,
  inr, Option, none, some, Result, ok, err, pure, proceed_inv, pure_inv, raise_inv, List, [], ◌∷◌,
  is_some, Bool-cases, Option-cases, Result-cases, arith,
}
use neco_containers.BucketProvisioner.NewConfig.{Config}
use neco_containers.BucketProvisioner.{
  Page, S3, ObjectBucket, after_create, after_head, ensure_bucket, delete_page, page_of,
  delete_one_page, delete_all_objects, after_delete, after_objects, delete, object_bucket,
  provision,
}

none_or_some {ℓ} : {A : Type ℓ} {B : Type 0} {a : A} (o : Option A) → o ≡ none → o ≡ some a → B
none_or_some o h k = cc

module _ {W E Token : Type 0} (s3 : S3 W E Token) where
  -- A bucket has finitely many pages: `left` are those from a token on. The next page is one less,
  -- and a deletion adds none.
  pub record Finite (left : W → Option Token → ℕ) : Type 0 where
    pub listing :
        (bucket : String) (t : Option Token) (n : Token) (page : Page Token) (w w' : W)
        → s3.list_page bucket t w ≡ (ok page, w')
        → page.next ≡ some n
        → left w' (some n) < left w t
    pub deleting :
        (bucket : String) (ks : List String) (t : Option Token) (u : Unit {0}) (w w' : W)
        → s3.delete_objects bucket ks w ≡ (ok u, w')
        → left w' t ≤ left w t

  module _ (left : W → Option Token → ℕ) (law : Finite left) where
    delete_page-left :
        (bucket : String) (ks : List String) (t : Option Token) (u : Unit {0}) (w w' : W)
        → delete_page s3 bucket ks w ≡ (ok u, w')
        → left w' t ≤ left w t
    unfolding delete_page
    delete_page-left bucket [] t u w w' h = let (e, f) = pure_inv tt u w w' h in rw f (omega arith)
    delete_page-left bucket (k ∷ ks) t u w w' h = law.deleting bucket (k ∷ ks) t u w w' h

    delete_one_page-left :
        (bucket : String) (t : Option Token) (n : Token) (w v : W)
        → delete_one_page s3 bucket t w ≡ (ok (some n), v)
        → left v (some n) < left w t
    unfolding delete_one_page page_of
    delete_one_page-left bucket t n w v h =
        let w1 = (s3.list_page bucket t w).1 in
        elim (Result-cases (s3.list_page bucket t w).0) [
          | inl (page, e) ↦
              let (u, w2, p, q) =
                proceed_inv (delete_page s3 bucket page.contents w1) (λ u. pure page.next) (some n)
                  v (rw e at h) in
              let (i, j) = pure_inv page.next (some n) w2 v q in
              let a = law.listing bucket t n page w w1 (ap (λ r. (r, w1)) e) i in
              let b = delete_page-left bucket page.contents (some n) u w1 w2 p in
              subst (λ x. left x (some n) < left w t) j (omega (arith, a, b))
          | inr (f, e) ↦ elim (Bool-cases (s3.is_no_such_bucket f)) [
            | inl b ↦ none_or_some none refl (pure_inv none (some n) w1 v (rw b at (rw e at h))).0
            | inr b ↦ raise_inv f (some n) w1 v (rw b at (rw e at h))
          ]
        ]

    delete_all_objects-ends :
        (fuel : ℕ) (bucket : String) (t : Option Token) (w : W)
        → left w t < fuel
        → is_some (delete_all_objects s3 fuel bucket t w) ≡ true
    unfolding delete_all_objects
    delete_all_objects-ends zero bucket t w h = ground arith
    delete_all_objects-ends (suc fuel) bucket t w h =
        let v = (delete_one_page s3 bucket t w).1 in
        elim (Result-cases (delete_one_page s3 bucket t w).0) [
          | inr (f, e) ↦ rw (delete_all_objects, e) refl
          | inl (none, e) ↦ rw (delete_all_objects, e) refl
          | inl (some n, e) ↦
              rw (delete_all_objects, e)
                (delete_all_objects-ends fuel bucket (some n) v
                  (omega (arith, h, delete_one_page-left bucket t n w v (ap (λ r. (r, v)) e))))
        ]

    -- A deletion ends, whatever the calls answer, where the service lists a bucket in finitely many
    -- pages: more fuel than there are pages is enough.
    pub delete-ends :
        (fuel : ℕ) (bucket : String) (w : W)
        → left w none < fuel
        → is_some (delete s3 fuel bucket w) ≡ true
    unfolding delete
    delete-ends fuel bucket w h = elim (Option-cases (delete_all_objects s3 fuel bucket none w)) [
      | inr (p, e) ↦ rw (delete, e) refl
      | inl e ↦ ground (arith, e, delete_all_objects-ends fuel bucket none w h)
    ]

  -- What the service says of its buckets: a bucket that is found or created is there, one that is
  -- already owned is there, and one that is deleted or is no bucket is not.
  pub record Buckets (exists : W → String → Bool) : Type 0 where
    pub found :
        (b : String) (u : Unit {0}) (w w' : W)
        → s3.head_bucket b w ≡ (ok u, w')
        → exists w' b ≡ true
    pub created :
        (b : String) (u : Unit {0}) (w w' : W)
        → s3.create_bucket b w ≡ (ok u, w')
        → exists w' b ≡ true
    pub owned :
        (b : String) (e : E) (w w' : W)
        → s3.create_bucket b w ≡ (err e, w')
        → s3.is_already_owned e ≡ true
        → exists w' b ≡ true
    pub deleted :
        (b : String) (u : Unit {0}) (w w' : W)
        → s3.delete_bucket b w ≡ (ok u, w')
        → exists w' b ≡ false
    pub missing :
        (b : String) (e : E) (w w' : W)
        → s3.delete_bucket b w ≡ (err e, w')
        → s3.is_no_such_bucket e ≡ true
        → exists w' b ≡ false

  module _ (exists : W → String → Bool) (law : Buckets exists) where
    create-exists :
        (bucket : String) (u : Unit {0}) (w w' : W)
        → after_create s3 (s3.create_bucket bucket w) ≡ (ok u, w')
        → exists w' bucket ≡ true
    unfolding after_create
    create-exists bucket u w w' h =
        let w1 = (s3.create_bucket bucket w).1 in
        elim (Result-cases (s3.create_bucket bucket w).0) [
          | inl (v, e) ↦
              let (i, j) = pure_inv tt u w1 w' (rw e at h) in
              ap (λ x. exists x bucket) (sym j) ∙ law.created bucket v w w1 (ap (λ r. (r, w1)) e)
          | inr (f, e) ↦ elim (Bool-cases (s3.is_already_owned f)) [
            | inl b ↦
                let (i, j) = pure_inv tt u w1 w' (rw b at (rw e at h)) in
                ap (λ x. exists x bucket) (sym j) ∙ law.owned bucket f w w1 (ap (λ r. (r, w1)) e) b
            | inr b ↦ raise_inv f u w1 w' (rw b at (rw e at h))
          ]
        ]

    ensure_bucket-exists :
        (bucket : String) (u : Unit {0}) (w w' : W)
        → ensure_bucket s3 bucket w ≡ (ok u, w')
        → exists w' bucket ≡ true
    unfolding ensure_bucket after_head
    ensure_bucket-exists bucket u w w' h =
        let w1 = (s3.head_bucket bucket w).1 in
        elim (Result-cases (s3.head_bucket bucket w).0) [
          | inl (v, e) ↦
              let (i, j) = pure_inv tt u w1 w' (rw e at h) in
              ap (λ x. exists x bucket) (sym j) ∙ law.found bucket v w w1 (ap (λ r. (r, w1)) e)
          | inr (f, e) ↦ create-exists bucket u w1 w' (rw e at h)
        ]

    -- A provision that succeeds leaves the bucket there, whether it was there before, is created or
    -- was created by another request in between, and gives back the host, the port and the keys of
    -- the configuration under the name of the bucket.
    pub provision-exists :
        {D : Type 0} (cfg : Config D) (bucket : String) (ob : ObjectBucket) (w w' : W)
        → provision s3 cfg bucket w ≡ (ok ob, w')
        → (exists w' bucket ≡ true) × (ob ≡ object_bucket s3 cfg bucket)
    unfolding provision
    provision-exists cfg bucket ob w w' h =
        let (u, w1, p, q) =
          proceed_inv (ensure_bucket s3 bucket w) (λ u. pure (object_bucket s3 cfg bucket)) ob w'
            h in
        let (i, j) = pure_inv (object_bucket s3 cfg bucket) ob w1 w' q in
        (ap (λ x. exists x bucket) (sym j) ∙ ensure_bucket-exists bucket u w w1 p, sym i)

    after_delete-gone :
        (bucket : String) (u : Unit {0}) (w w' : W)
        → after_delete s3 (s3.delete_bucket bucket w) ≡ (ok u, w')
        → exists w' bucket ≡ false
    unfolding after_delete
    after_delete-gone bucket u w w' h =
        let w1 = (s3.delete_bucket bucket w).1 in
        elim (Result-cases (s3.delete_bucket bucket w).0) [
          | inl (v, e) ↦
              let (i, j) = pure_inv tt u w1 w' (rw e at h) in
              ap (λ x. exists x bucket) (sym j) ∙ law.deleted bucket v w w1 (ap (λ r. (r, w1)) e)
          | inr (f, e) ↦ elim (Bool-cases (s3.is_no_such_bucket f)) [
            | inl b ↦
                let (i, j) = pure_inv tt u w1 w' (rw b at (rw e at h)) in
                ap (λ x. exists x bucket) (sym j)
                ∙ law.missing bucket f w w1 (ap (λ r. (r, w1)) e) b
            | inr b ↦ raise_inv f u w1 w' (rw b at (rw e at h))
          ]
        ]

    objects-gone :
        (bucket : String) (u : Unit {0}) (p : Result E (Unit {0}) × W) (w' : W)
        → after_objects s3 bucket p ≡ (ok u, w')
        → exists w' bucket ≡ false
    unfolding after_objects
    objects-gone bucket u (ok v, w) w' h = after_delete-gone bucket u w w' h
    objects-gone bucket u (err f, w) w' h = raise_inv f u w w' h

    -- A deletion that reports success leaves no bucket of the name, also where the bucket was
    -- deleted by another request in between.
    pub delete-gone :
        (fuel : ℕ) (bucket : String) (u : Unit {0}) (w w' : W)
        → delete s3 fuel bucket w ≡ some (ok u, w')
        → exists w' bucket ≡ false
    unfolding delete
    delete-gone fuel bucket u w w' h =
        elim (Option-cases (delete_all_objects s3 fuel bucket none w)) [
          | inl e ↦ none_or_some none refl (rw (e, delete) at h)
          | inr (p, e) ↦ objects-gone bucket u p w' (some_inv (rw (e, delete) at h))
        ]
