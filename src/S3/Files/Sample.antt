-- ===== src/S3/Files/Sample.antt =====
-- A store that is a function of bucket and key, and simple helpers, for the tests.
use mathlib.Core.Path.{subst}
use carqna_agent.Common.{
  ◌≡◌, ◌⊎◌, refl, ap, ◌&&◌, Option, none, some, List, [], inl, inr, if◌then◌else◌, nonempty,
  Bool-cases,
}
use carqna_agent.PyText.{Text, codes, text_eq}
use carqna_agent.PyText.Laws.{text_eq_refl, text_eq_iff}
use carqna_agent.PyText.Utf8.{Bytes}
use carqna_agent.S3.Keys.{Backend}
use carqna_agent.S3.Client.{Failure, client_error, Page, Client, IsStore, done, Utils}

abbrev pub Store : Type 0
Store = Text → Text → Option Bytes

abbrev pub no_such_key : Failure
no_such_key = client_error (some (codes "NoSuchKey")) (codes "missing")

abbrev found : Option Bytes → Failure ⊎ Bytes
found none = inl no_such_key
found (some body) = inr body

abbrev pub put_in : Text → Text → Bytes → Store → Store
put_in bucket key body s bucket' key' =
    if text_eq bucket bucket' && text_eq key key' then some body else s bucket' key'

abbrev pub client_of : List Page → Client Store
client_of listing = record {
  get_object = λ bucket key s. found (s bucket key);
  put_object = λ bucket key body s. (inr tt, put_in bucket key body s);
  pages = λ bucket prefix delimiter s. inr listing;
}

pub client_of-IsStore : (listing : List Page) → IsStore (client_of listing)
client_of-IsStore listing = record {
  read_after_write = λ bucket key body s s' e.
      subst (λ t. found (t bucket key) ≡ inr body) (ap (λ r. r.1) e)
        (rw (text_eq_refl bucket, text_eq_refl key) refl);
  other_key = λ bucket key other body s differ. elim (Bool-cases (text_eq key other)) [
    | inl same ↦ elim (differ ((text_eq_iff key other).0 same)) [ ]
    | inr e ↦ rw (text_eq_refl bucket, e) refl
  ];
}

abbrev pub plain_utils : Utils Text
plain_utils = record {
  get_backend_read_file_type = λ path. codes "text";
  check_empty_content = λ content. if nonempty content then none else some (codes "empty");
  slice_read_response = λ file_data offset limit. done file_data;
  perform_string_replacement = λ content old new all. inr (new, 1);
  create_file_data = λ content. record {
    content = content;
    encoding = codes "utf-8";
    modified_at = some (codes "now");
  };
  grep_matches_from_files = λ files pattern path glob max_count. done [];
  glob_search_files = λ files pattern path. codes "No files found";
  decode_error = λ raw. codes "invalid start byte";
}

abbrev pub docs : Backend
docs = record { bucket = codes "insurance"; prefix = codes "docs" }

abbrev pub nothing : Store
nothing bucket key = none
