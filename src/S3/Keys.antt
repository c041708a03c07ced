-- ===== src/S3/Keys.antt =====
-- The mapping between virtual paths and object keys, and the settings of a backend
-- (src/agent/s3_backend.py, `__init__`, `_key_for`, `_path_for`, `_dir_key_prefix`).
pub mod Laws
pub mod Dirs
mod Tests
use carqna_agent.Common.{ℕ, Bool, ◌&&◌, [], ◌∷◌, ◌++◌, ◌==◌, length, drop, if◌then◌else◌, nonempty}
use carqna_agent.PyText.{Text, text_eq, starts_with, lstrip, strip}

-- The settings that `__init__` keeps; the client is a parameter of the operations.
pub record Backend : Type 0 where
  pub bucket : Text
  pub prefix : Text

abbrev pub is_slash : ℕ → Bool
is_slash c = c == 47

unfoldable pub init : Text → Text → Backend
init bucket prefix = record { bucket = bucket; prefix = strip is_slash prefix }

unfoldable pub key_for : Backend → Text → Text
key_for b path =
    let rel = lstrip is_slash path in if nonempty b.prefix then b.prefix ++ 47 ∷ rel else rel

unfoldable pub path_for : Backend → Text → Text
path_for b key =
    let key_prefix = b.prefix ++ 47 ∷ [] in
    47
    ∷ (if nonempty b.prefix
        then (if starts_with key key_prefix
            then drop (length key_prefix) key
            else if text_eq key b.prefix
            then []
            else key)
        else key)

unfoldable pub dir_key_prefix : Backend → Text → Text
dir_key_prefix b path =
    let rel = strip is_slash path in
    let base =
      if nonempty b.prefix && nonempty rel
      then b.prefix ++ 47 ∷ rel
      else if nonempty b.prefix
      then b.prefix
      else rel in
    if nonempty base then base ++ 47 ∷ [] else []

-- The prefix of every key below the backend's root (`_iter_all_objects`).
unfoldable pub root_prefix : Backend → Text
root_prefix b = if nonempty b.prefix then b.prefix ++ 47 ∷ [] else []
