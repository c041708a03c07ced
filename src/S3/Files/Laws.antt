-- ===== src/S3/Files/Laws.antt =====
-- What a file holds after `write` and `edit`, on a store that is consistent.
use carqna_agent.Common.{ℕ, ℤ, ◌≡◌, ◌≢◌, ◌⊎◌, refl, ap, Bool, Option, some, none, inl, inr}
use carqna_agent.PyText.{Text, codes, lstrip}
use carqna_agent.PyText.Utf8.{Bytes, encode, decode}
use carqna_agent.S3.Keys.{Backend, key_for, is_slash}
use carqna_agent.S3.Keys.Laws.{key_for-eq_iff}
use carqna_agent.S3.Client.{Failure, Client, IsStore, Utils}
use carqna_agent.S3.Files.{
  read, write, edit, normalize, put_bytes, read_raw, replace_in, edit_text, edit_raw,
}

module _ {S M : Type 0} (client : Client S) (u : Utils M) (b : Backend) where
  put_other :
      {A : Type 0} (what path other : Text) (a : A) (body : Option Bytes) (s : S)
      → IsStore client
      → lstrip is_slash path ≢ lstrip is_slash other
      → client.get_object b.bucket (key_for b other) (put_bytes client u b what path a body s).1
        ≡ client.get_object b.bucket (key_for b other) s
  put_other what path other a none s i differ = refl
  put_other what path other a (some raw) s i differ =
      i.other_key b.bucket (key_for b path) (key_for b other) raw s
        (λ same. differ ((key_for-eq_iff b path other).0 same))

  -- On a consistent store, whatever a write is answered, it leaves what is read of every path that
  -- differs from its own in more than leading slashes.
  pub read-write_ne :
      (path other content : Text) (offset limit : ℤ) (s : S)
      → IsStore client
      → lstrip is_slash path ≢ lstrip is_slash other
      → read client u b other offset limit (write client u b path content s).1
        ≡ read client u b other offset limit s
  unfolding read write
  read-write_ne path other content offset limit s i differ =
      rw (put_other (codes "Error writing") path other path (encode content) s i differ) refl

  -- On a consistent store, whatever an edit is answered, it leaves what is read of every path that
  -- differs from its own in more than leading slashes.
  read-edit_ne :
      (path other old_string new_string : Text) (replace_all : Bool) (offset limit : ℤ) (s : S)
      → IsStore client
      → lstrip is_slash path ≢ lstrip is_slash other
      → read client u b other offset limit
          (edit client u b path old_string new_string replace_all s).1
        ≡ read client u b other offset limit s
  unfolding read edit
  read-edit_ne path other old_string new_string replace_all offset limit s i differ =
      ap (read_raw client u b other offset limit)
        (raw_other (client.get_object b.bucket (key_for b path) s))
    where
      Same : S → Type 0
      Same t =
          client.get_object b.bucket (key_for b other) t
          ≡ client.get_object b.bucket (key_for b other) s

      replaced : (r : Text ⊎ (Text × ℕ)) → Same (replace_in client u b path r s).1
      replaced (inl e) = refl
      replaced (inr (new, n)) =
          put_other (codes "Error editing") path other (path, n) (encode new) s i differ

      text_other :
          (raw : Bytes) (decoded : Option Text)
          → Same (edit_text client u b path old_string new_string replace_all raw decoded s).1
      text_other raw none = refl
      text_other raw (some content) = replaced (
          u.perform_string_replacement content (normalize old_string) (normalize new_string)
            replace_all)

      raw_other :
          (got : Failure ⊎ Bytes)
          → Same (edit_raw client u b path old_string new_string replace_all got s).1
      raw_other (inl e) = refl
      raw_other (inr raw) = text_other raw (decode raw)
