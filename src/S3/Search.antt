-- ===== src/S3/Search.antt =====
-- The operations on many files: `ls`, `grep`, `glob` and the helpers that they read the bucket with.
pub mod Contents
pub mod Listing
pub mod Metadata
mod Tests
use mathlib.Core.List.{flat_map}
use carqna_agent.Common.{
  ℕ, ℤ, Bool, true, false, not, Option, none, some, List, [], ◌∷◌, ◌++◌, map, ◌⊎◌, inl, inr, ltb,
  ◌==◌, if◌then◌else◌, filter,
}
use carqna_agent.PyText.{Text, codes, text_eq, ends_with}
use carqna_agent.PyText.Utf8.{Bytes, decode}
use carqna_agent.Errors.{Result, returned, raised, library_error, ◌>>=◌}
use carqna_agent.S3.Keys.{Backend, path_for, dir_key_prefix, root_prefix}
use carqna_agent.S3.Client.{
  Failure, Object, Page, Client, Answer, failed, done, FileData, FileInfo, Utils,
}
use carqna_agent.PyDict.{Dict, dict_set, dict_get, get_or}
use carqna_agent.S3.Files.{str_of}

-- s <= t, by code points
unfoldable pub text_le : Text → Text → Bool
text_le [] t = true
text_le (c ∷ s) [] = false
text_le (c ∷ s) (d ∷ t) = if c == d then text_le s t else ltb c d

-- entries.sort(key=lambda entry: entry.get("path", "")), which is stable
abbrev pub insert_by_path : FileInfo → List FileInfo → List FileInfo
insert_by_path e [] = e ∷ []
insert_by_path e (f ∷ fs) = if text_le e.path f.path then e ∷ f ∷ fs else f ∷ insert_by_path e fs

unfoldable pub sort_by_path : List FileInfo → List FileInfo
sort_by_path [] = []
sort_by_path (e ∷ es) = insert_by_path e (sort_by_path es)

-- s.split("\n")
abbrev pub split_cons : ℕ → List Text → List Text
split_cons c [] = (c ∷ []) ∷ []
split_cons c (w ∷ ws) = (c ∷ w) ∷ ws

unfoldable pub split_lines : Text → List Text
split_lines [] = [] ∷ []
split_lines (c ∷ s) = let rest = split_lines s in if c == 10 then [] ∷ rest else split_cons c rest

-- A directory-marker object, not a real file.
abbrev pub is_marker : Object → Bool
is_marker obj = ends_with 47 obj.key

-- f"{what} '{subject}': {e}"
abbrev pub about : Text → Text → Failure → Text
about what subject e = what ++ codes " '" ++ subject ++ codes "': " ++ str_of e

module _ {S M : Type 0} (client : Client S) (u : Utils M) (b : Backend) where
  -- The entries of one page of `ls`.
  abbrev pub dir_entry : Text → FileInfo
  dir_entry common_prefix = record {
    path = path_for b common_prefix;
    is_dir = true;
    size = 0;
    modified_at = [];
  }

  abbrev pub file_entry : Object → FileInfo
  file_entry obj = record {
    path = path_for b obj.key;
    is_dir = false;
    size = obj.size;
    modified_at = obj.last_modified;
  }

  unfoldable pub page_entries : Text → Page → List FileInfo
  page_entries dir_prefix page =
      map dir_entry page.common_prefixes
      ++ map file_entry (filter (λ obj. not (text_eq obj.key dir_prefix)) page.contents)

  abbrev pub list_pages : Text → Text → Failure ⊎ List Page → Answer (List FileInfo)
  list_pages path dir_prefix (inl e) = failed (about (codes "Cannot list") path e)
  list_pages path dir_prefix (inr pages) =
      done (sort_by_path (flat_map (page_entries dir_prefix) pages))

  unfoldable pub ls : Text → S → Answer (List FileInfo)
  ls path s =
      let dir_prefix = dir_key_prefix b path in
      list_pages path dir_prefix (client.pages b.bucket dir_prefix (some (codes "/")) s)

  abbrev pub all_contents : Failure ⊎ List Page → Failure ⊎ List Object
  all_contents (inl e) = inl e
  all_contents (inr pages) = inr (flat_map (λ page. page.contents) pages)

  -- `_iter_all_objects`, run to its end
  unfoldable pub iter_all_objects : S → Failure ⊎ List Object
  iter_all_objects s = all_contents (client.pages b.bucket (root_prefix b) none s)

  -- The inner `try`: an object that cannot be read or decoded is skipped.
  abbrev pub readable : Failure ⊎ Bytes → Option Text
  readable (inl e) = none
  readable (inr body) = decode body

  abbrev pub set_content : Text → Option Text → Dict FileData → Dict FileData
  set_content key none files = files
  set_content key (some content) files =
      dict_set (path_for b key) (u.create_file_data content) files

  abbrev pub add_contents : S → List Object → Dict FileData → Dict FileData
  add_contents s [] files = files
  add_contents s (obj ∷ objs) files = add_contents s objs (
      if is_marker obj
      then files
      else set_content obj.key (readable (client.get_object b.bucket obj.key s)) files)

  abbrev pub contents_of : S → Failure ⊎ List Object → Failure ⊎ Dict FileData
  contents_of s (inl e) = inl e
  contents_of s (inr objs) = inr (add_contents s objs [])

  unfoldable pub read_all_file_contents : S → Failure ⊎ Dict FileData
  read_all_file_contents s = contents_of s (iter_all_objects s)

  abbrev pub search_in :
      Text → Option Text → Option Text → Option ℤ → Failure ⊎ Dict FileData → Answer (List M)
  search_in pattern path glob max_count (inl e) =
      failed (about (codes "Error searching for") pattern e)
  search_in pattern path glob max_count (inr files) =
      u.grep_matches_from_files files pattern (get_or (codes "/") path) glob max_count

  unfoldable pub grep : Text → Option Text → Option Text → Option ℤ → S → Answer (List M)
  grep pattern path glob max_count s =
      search_in pattern path glob max_count (read_all_file_contents s)

  abbrev pub metadata : Object → FileData
  metadata obj = record {
    content = [];
    encoding = codes "utf-8";
    modified_at = some obj.last_modified_utc;
  }

  abbrev pub add_metadata : List Object → Dict FileData × Dict ℕ → Dict FileData × Dict ℕ
  add_metadata [] d = d
  add_metadata (obj ∷ objs) d = add_metadata objs (
      if is_marker obj then d else (
        dict_set (path_for b obj.key) (metadata obj) d.0,
        dict_set (path_for b obj.key) obj.size d.1,
      ))

  abbrev pub metadata_of : Failure ⊎ List Object → Failure ⊎ (Dict FileData × Dict ℕ)
  metadata_of (inl e) = inl e
  metadata_of (inr objs) = inr (add_metadata objs ([], []))

  unfoldable pub read_all_file_metadata : S → Failure ⊎ (Dict FileData × Dict ℕ)
  read_all_file_metadata s = metadata_of (iter_all_objects s)

  abbrev pub key_or_error : Option Text → Result Text
  key_or_error none = raised (library_error (codes "KeyError"))
  key_or_error (some t) = returned t

  -- files[file_path]["modified_at"]
  abbrev pub modified_at_of : Option FileData → Result Text
  modified_at_of none = raised (library_error (codes "KeyError"))
  modified_at_of (some f) = key_or_error f.modified_at

  unfoldable pub matches_of : Dict FileData × Dict ℕ → List Text → Result (List FileInfo)
  matches_of d [] = returned []
  matches_of d (p ∷ ps) = modified_at_of (dict_get p d.0) >>= λ modified_at.
      matches_of d ps >>= λ rest. returned (
        record {
          path = p;
          is_dir = false;
          size = get_or 0 (dict_get p d.1);
          modified_at = modified_at;
        }
        ∷ rest)

  abbrev pub found : Dict FileData × Dict ℕ → Text → Result (Answer (List FileInfo))
  found d result =
      if text_eq result (codes "No files found")
      then returned (done [])
      else matches_of d (split_lines result) >>= λ matches. returned (done matches)

  abbrev pub glob_in :
      Text → Option Text → Failure ⊎ (Dict FileData × Dict ℕ) → Result (Answer (List FileInfo))
  glob_in pattern path (inl e) = returned (failed (about (codes "Error searching for") pattern e))
  glob_in pattern path (inr d) = found d (u.glob_search_files d.0 pattern path)

  unfoldable pub glob : Text → Option Text → S → Result (Answer (List FileInfo))
  glob pattern path s = glob_in pattern path (read_all_file_metadata s)
