-- ===== src/Graph/Backend/Laws.antt =====
-- Which store INSURANCE_DOCS_ROOT selects.
use carqna_agent.Common.{arith, ◌≡◌, refl, ◌∙◌, Bool, true, some, ◌∷◌, ◌++◌, Bool-cases, inl, inr}
use carqna_agent.PyText.{Text, codes, text_eq, strip, lstrip}
use carqna_agent.PyText.Laws.{lstrip_idem}
use carqna_agent.PyText.Url.{urlsplit}
use carqna_agent.PyText.Url.Laws.{IsHost, IsPath, urlsplit-s3}
use carqna_agent.Errors.{Result, returned, >>=-returned}
use carqna_agent.Os.{Os, getenv}
use carqna_agent.S3.Keys.{init, is_slash}
use carqna_agent.Graph.Backend.{
  InsuranceBackend, s3, filesystem, create_insurance_backend, s3_backend, filesystem_backend,
  present,
}

module _ {K : Type 0} (boto3_client : Text → Text → Text → Text → Result K) (refused : Text → Bool)
    (os : Os) where
  selects_s3 :
      (bucket prefix : Text)
      → os.environ (codes "INSURANCE_DOCS_ROOT") ≡ some (codes "s3://" ++ bucket ++ 47 ∷ prefix)
      → IsHost bucket
      → IsPath prefix
      → create_insurance_backend boto3_client refused os
        ≡ s3_backend boto3_client refused os bucket (lstrip is_slash prefix)
  unfolding create_insurance_backend text_eq lstrip
  selects_s3 bucket prefix e h k = rw (e, urlsplit-s3 refused bucket prefix h k) refl

  -- A root s3://<bucket>/<prefix>, with a bucket of plain ASCII characters and a prefix without `?`,
  -- `#` and line breaks, and the three S3 settings present: the client is made of those settings and
  -- the region, which is us-east-1 unless it is set, and when it can be made the store is that bucket
  -- with the prefix without its slashes at both ends.
  pub create_insurance_backend-s3 :
      (bucket prefix endpoint access secret : Text) (c : K)
      → os.environ (codes "INSURANCE_DOCS_ROOT") ≡ some (codes "s3://" ++ bucket ++ 47 ∷ prefix)
      → IsHost bucket
      → IsPath prefix
      → os.environ (codes "S3_ENDPOINT_URL") ≡ some endpoint
      → os.environ (codes "S3_ACCESS_KEY_ID") ≡ some access
      → os.environ (codes "S3_SECRET_ACCESS_KEY") ≡ some secret
      → boto3_client endpoint access secret (getenv os (codes "S3_REGION") (codes "us-east-1"))
        ≡ returned c
      → create_insurance_backend boto3_client refused os
        ≡ returned (s3 (record { bucket = bucket; prefix = strip is_slash prefix }) c)
  unfolding init strip
  create_insurance_backend-s3 bucket prefix endpoint access secret c root h k e a s made =
      selects_s3 bucket prefix root h k ∙ rw (e, a, s, made, lstrip_idem is_slash prefix) refl

  IsOnDisk : Result (InsuranceBackend K) → Type 0
  IsOnDisk r =
      (root : Text) (virtual : Bool)
      → r ≡ returned (filesystem root virtual)
      → (os.exists root ≡ true) × (virtual ≡ true)

  s3_backend-IsOnDisk :
      (bucket prefix : Text) → IsOnDisk (s3_backend boto3_client refused os bucket prefix)
  unfolding IsOnDisk
  s3_backend-IsOnDisk bucket prefix root virtual h =
      let (endpoint, e, h1) = >>=-returned (present (os.environ (codes "S3_ENDPOINT_URL"))) _ h in
      let (access, a, h2) = >>=-returned (present (os.environ (codes "S3_ACCESS_KEY_ID"))) _ h1 in
      let (secret, s, h3) =
        >>=-returned (present (os.environ (codes "S3_SECRET_ACCESS_KEY"))) _ h2 in
      let (c, made, h4) = >>=-returned (boto3_client endpoint access secret _) _ h3 in cc h4

  filesystem_backend-IsOnDisk :
      (path : Text) → IsOnDisk (filesystem_backend boto3_client refused os path)
  unfolding IsOnDisk
  filesystem_backend-IsOnDisk path root virtual h = ground arith

  -- A store on the file system is virtual and stands on a path that exists.
  pub create_insurance_backend-exists :
      (root : Text) (virtual : Bool)
      → create_insurance_backend boto3_client refused os ≡ returned (filesystem root virtual)
      → (os.exists root ≡ true) × (virtual ≡ true)
  unfolding create_insurance_backend IsOnDisk
  create_insurance_backend-exists root virtual h =
      let (parsed, e, k) = >>=-returned (urlsplit refused _) _ h in
      elim (Bool-cases (text_eq parsed.scheme (codes "s3"))) [
        | inl s ↦ s3_backend-IsOnDisk _ _ root virtual (rw s at k)
        | inr s ↦ filesystem_backend-IsOnDisk _ root virtual (rw s at k)
      ]
