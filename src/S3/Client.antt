-- ===== src/S3/Client.antt =====
-- What src/agent/s3_backend.py calls: boto3's S3 client and the shared helpers of deepagents.backends,
-- as interfaces, and the result types that it answers with.
use carqna_agent.Common.{ℤ, ◌≡◌, ◌≢◌, ◌⊎◌, Bool, Option, List, ℕ, inr}
use carqna_agent.PyText.{Text}
use carqna_agent.PyText.Utf8.{Bytes}
use carqna_agent.PyDict.{Dict}

-- A ClientError with its response's error code, if any, or a BotoCoreError; each with its str().
pub data Failure : Type 0 where
  client_error : Option Text → Text → Failure
  boto_core_error : Text → Failure

-- An entry of a page's Contents: `last_modified` is LastModified.isoformat(), `last_modified_utc` the
-- same after astimezone(UTC).
pub record Object : Type 0 where
  pub key : Text
  pub size : ℕ
  pub last_modified : Text
  pub last_modified_utc : Text

-- A key that a page lacks is the empty list.
pub record Page : Type 0 where
  pub common_prefixes : List Text
  pub contents : List Object

-- The calls by bucket and key, on a store's state: get_object(…)["Body"].read(), put_object(…), and
-- the pages of list_objects_v2 by prefix and delimiter.
pub record Client (S : Type 0) : Type 0 where
  pub get_object : Text → Text → S → Failure ⊎ Bytes
  pub put_object : Text → Text → Bytes → S → (Failure ⊎ Unit {0}) × S
  pub pages : Text → Text → Option Text → S → Failure ⊎ List Page

-- S3's read-after-write consistency: a read behind a successful put gives what was put, and a put
-- leaves the other keys of the bucket alone.
pub record IsStore {S : Type 0} (c : Client S) : Type 0 where
  pub read_after_write :
      (bucket key : Text) (body : Bytes) (s s' : S)
      → c.put_object bucket key body s ≡ (inr tt, s')
      → c.get_object bucket key s' ≡ inr body
  pub other_key :
      (bucket key other : Text) (body : Bytes) (s : S)
      → key ≢ other
      → c.get_object bucket other (c.put_object bucket key body s).1 ≡ c.get_object bucket other s

-- deepagents.backends.protocol: an `error`, or the other fields of the result.
pub data Answer {ℓ} (A : Type ℓ) : Type ℓ where
  failed : Text → Answer A
  done : A → Answer A

pub record FileData : Type 0 where
  pub content : Text
  pub encoding : Text
  pub modified_at : Option Text

pub record FileInfo : Type 0 where
  pub path : Text
  pub is_dir : Bool
  pub size : ℕ
  pub modified_at : Text

-- deepagents.backends.utils, with `M` the matches of a grep.
pub record Utils (M : Type 0) : Type 0 where
  pub get_backend_read_file_type : Text → Text
  pub check_empty_content : Text → Option Text
  pub slice_read_response : FileData → ℤ → ℤ → Answer FileData
  pub perform_string_replacement : Text → Text → Text → Bool → Text ⊎ (Text × ℕ)
  pub create_file_data : Text → FileData
  pub grep_matches_from_files :
      Dict FileData → Text → Text → Option Text → Option ℤ → Answer (List M)
  pub glob_search_files : Dict FileData → Text → Option Text → Text
  -- str() of the UnicodeDecodeError that bytes.decode raises
  pub decode_error : Bytes → Text
