-- ===== src/S3/Files.antt =====
-- The operations on one file: `_not_found`, `read`, `write` and `edit`.
pub mod Laws
pub mod Sample
mod Tests
use carqna_agent.Common.{
  ℕ, ℤ, Bool, false, ◌&&◌, not, Option, none, some, List, [], ◌∷◌, ◌++◌, map, inl, inr, ◌⊎◌, ◌==◌,
  if◌then◌else◌,
}
use carqna_agent.PyText.{Text, codes, text_eq, text_mem, starts_with}
use carqna_agent.PyText.Utf8.{Bytes, encode, decode, standard_b64encode}
use carqna_agent.Errors.{Result, returned, raised, value_error}
use carqna_agent.S3.Keys.{Backend, key_for}
use carqna_agent.S3.Client.{
  Failure, client_error, boto_core_error, Client, Answer, failed, done, FileData, Utils,
}

abbrev pub not_found_codes : List Text
not_found_codes = codes "NoSuchKey" ∷ codes "404" ∷ codes "NotFound" ∷ []

-- code in _NOT_FOUND_CODES
abbrev pub is_not_found : Option Text → Bool
is_not_found none = false
is_not_found (some code) = text_mem code not_found_codes

abbrev pub str_of : Failure → Text
str_of (client_error code e) = e
str_of (boto_core_error e) = e

abbrev pub not_found : Failure → Bool
not_found (client_error code e) = is_not_found code
not_found (boto_core_error e) = false

-- f"{what} file '{file_path}': {e}"
abbrev pub message : Text → Text → Text → Text
message what file_path e = what ++ codes " file '" ++ file_path ++ codes "': " ++ e

-- str.replace("\r\n", "\n"): a carriage return in front of a newline is left out.
abbrev pub without_crlf : Text → Text
without_crlf [] = []
without_crlf (c ∷ s) =
    let rest = without_crlf s in if c == 13 && starts_with s (10 ∷ []) then rest else c ∷ rest

-- s.replace("\r\n", "\n").replace("\r", "\n")
unfoldable pub normalize : Text → Text
normalize s = map (λ c. if c == 13 then 10 else c) (without_crlf s)

module _ {S M : Type 0} (client : Client S) (u : Utils M) (b : Backend) where
  -- FileData(content=content, encoding="utf-8")
  abbrev pub utf8_data : Text → FileData
  utf8_data content = record { content = content; encoding = codes "utf-8"; modified_at = none }

  -- The part of `read` behind the decoding.
  abbrev pub show_content : Text → ℤ → ℤ → Option Text → Answer FileData
  show_content content offset limit (some empty_msg) = done (utf8_data empty_msg)
  show_content content offset limit none = u.slice_read_response (utf8_data content) offset limit

  abbrev pub read_text : Text → ℤ → ℤ → Bytes → Option Text → Answer FileData
  read_text file_path offset limit raw none =
      failed (message (codes "Error reading") file_path (u.decode_error raw))
  read_text file_path offset limit raw (some content) =
      show_content content offset limit (u.check_empty_content content)

  abbrev pub read_raw : Text → ℤ → ℤ → Failure ⊎ Bytes → Answer FileData
  read_raw file_path offset limit (inl e) =
      if not_found e
      then failed (codes "File '" ++ file_path ++ codes "' not found")
      else failed (message (codes "Error reading") file_path (str_of e))
  read_raw file_path offset limit (inr raw) =
      if not (text_eq (u.get_backend_read_file_type file_path) (codes "text"))
      then done (record {
        content = standard_b64encode raw;
        encoding = codes "base64";
        modified_at = none;
      })
      else read_text file_path offset limit raw (decode raw)

  unfoldable pub read : Text → ℤ → ℤ → S → Answer FileData
  read file_path offset limit s =
      read_raw file_path offset limit (client.get_object b.bucket (key_for b file_path) s)

  abbrev pub written : {A : Type 0} → Text → Text → A → Failure ⊎ Unit {0} → Answer A
  written what file_path a (inl e) = failed (message what file_path (str_of e))
  written what file_path a (inr _) = done a

  -- client.put_object(…, Body=content.encode("utf-8")); the `except` names no UnicodeEncodeError.
  abbrev pub put_bytes : {A : Type 0} → Text → Text → A → Option Bytes → S → Result (Answer A) × S
  put_bytes what file_path a none s = (raised (value_error (codes "surrogates not allowed")), s)
  put_bytes what file_path a (some body) s =
      let (put, s') = client.put_object b.bucket (key_for b file_path) body s in
      (returned (written what file_path a put), s')

  unfoldable pub write : Text → Text → S → Result (Answer Text) × S
  write file_path content s =
      put_bytes (codes "Error writing") file_path file_path (encode content) s

  abbrev pub replace_in : Text → Text ⊎ (Text × ℕ) → S → Result (Answer (Text × ℕ)) × S
  replace_in file_path (inl error) s = (returned (failed error), s)
  replace_in file_path (inr (new_content, occurrences)) s =
      put_bytes (codes "Error editing") file_path (file_path, occurrences) (encode new_content) s

  abbrev pub edit_text :
      Text → Text → Text → Bool → Bytes → Option Text → S → Result (Answer (Text × ℕ)) × S
  edit_text file_path old_string new_string replace_all raw none s =
      (returned (failed (message (codes "Error editing") file_path (u.decode_error raw))), s)
  edit_text file_path old_string new_string replace_all raw (some content) s =
      replace_in file_path
        (u.perform_string_replacement content (normalize old_string) (normalize new_string)
          replace_all)
        s

  abbrev pub edit_raw :
      Text → Text → Text → Bool → Failure ⊎ Bytes → S → Result (Answer (Text × ℕ)) × S
  edit_raw file_path old_string new_string replace_all (inl e) s = (
    returned (
        if not_found e
        then failed (codes "Error: File '" ++ file_path ++ codes "' not found")
        else failed (message (codes "Error editing") file_path (str_of e))),
    s,
  )
  edit_raw file_path old_string new_string replace_all (inr raw) s =
      edit_text file_path old_string new_string replace_all raw (decode raw) s

  unfoldable pub edit : Text → Text → Text → Bool → S → Result (Answer (Text × ℕ)) × S
  edit file_path old_string new_string replace_all s =
      edit_raw file_path old_string new_string replace_all
        (client.get_object b.bucket (key_for b file_path) s) s
