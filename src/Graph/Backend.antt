-- ===== src/Graph/Backend.antt =====
-- `_create_insurance_backend`: the document store that INSURANCE_DOCS_ROOT selects.
pub mod Laws
use carqna_agent.Common.{Bool, true, not, Option, none, some, [], ◌++◌, if◌then◌else◌}
use carqna_agent.PyText.{Text, codes, text_eq, lstrip}
use carqna_agent.PyText.Url.{SplitResult, urlsplit}
use carqna_agent.Errors.{Result, returned, raised, file_not_found, library_error, ◌>>=◌}
use carqna_agent.Os.{Os, getenv, expanduser}
use carqna_agent.S3.Keys.{Backend, init, is_slash}

-- `K` is the type of boto3's clients.
pub data InsuranceBackend (K : Type 0) : Type 0 where
  s3 : Backend → K → InsuranceBackend K
  -- FilesystemBackend(root_dir, virtual_mode)
  filesystem : Text → Bool → InsuranceBackend K

abbrev pub default_filesystem_root : Text
default_filesystem_root = codes "~/git/knowledgexpert/data/linux-exec/insurance-docs"

-- os.environ[name]
abbrev pub present : Option Text → Result Text
present none = raised (library_error (codes "KeyError"))
present (some v) = returned v

-- `boto3_client` is boto3.client("s3", …) by endpoint, access key, secret key and region. `refused` is
-- that of `urlsplit`.
module _ {K : Type 0} (boto3_client : Text → Text → Text → Text → Result K) (refused : Text → Bool)
    (os : Os) where
  abbrev pub s3_backend : Text → Text → Result (InsuranceBackend K)
  s3_backend bucket prefix = present (os.environ (codes "S3_ENDPOINT_URL")) >>= λ endpoint_url.
      present (os.environ (codes "S3_ACCESS_KEY_ID")) >>= λ access_key.
      present (os.environ (codes "S3_SECRET_ACCESS_KEY")) >>= λ secret_key.
      boto3_client endpoint_url access_key secret_key
        (getenv os (codes "S3_REGION") (codes "us-east-1"))
      >>= λ client. returned (s3 (init bucket prefix) client)

  abbrev pub filesystem_backend : Text → Result (InsuranceBackend K)
  filesystem_backend filesystem_root =
      if not (os.exists filesystem_root)
      then raised (file_not_found (codes "Filesystem root not found: " ++ filesystem_root))
      else returned (filesystem filesystem_root true)

  abbrev pub backend_of : Text → SplitResult → Result (InsuranceBackend K)
  backend_of docs_root parsed =
      if text_eq parsed.scheme (codes "s3")
      then s3_backend parsed.netloc (lstrip is_slash parsed.path)
      else filesystem_backend
          (expanduser os (if text_eq parsed.scheme (codes "file") then parsed.path else docs_root))

  unfoldable pub create_insurance_backend : Result (InsuranceBackend K)
  create_insurance_backend =
      let docs_root = getenv os (codes "INSURANCE_DOCS_ROOT") default_filesystem_root in
      urlsplit refused docs_root >>= λ parsed. backend_of docs_root parsed
