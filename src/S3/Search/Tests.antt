-- ===== src/S3/Search/Tests.antt =====
-- Runs of the search operations on the sample store with a listing.
use mathlib.Core.List.{flat_map}
use carqna_agent.Common.{
  ℕ, ◌≡◌, refl, Bool, true, false, Option, none, some, List, [], ◌∷◌, map, All, inr,
}
use carqna_agent.PyText.{Text, codes, text_eq, ends_with, starts_with, strip}
use carqna_agent.Errors.{returned}
use carqna_agent.S3.Keys.{path_for, dir_key_prefix, root_prefix}
use carqna_agent.S3.Client.{Object, Page, Client, done, FileData, FileInfo, Utils}
use carqna_agent.PyDict.{Dict, dict_set, dict_get}
use carqna_agent.S3.Files.Sample.{Store, client_of, plain_utils, docs, nothing, put_in}
use carqna_agent.S3.Search.{
  ls, glob, iter_all_objects, read_all_file_metadata, split_lines, matches_of, page_entries,
  sort_by_path, text_le,
}
use carqna_agent.PyDict.Laws.{Has}
use carqna_agent.S3.Search.Listing.{keys_below, listing_below, IsAnswerOf, ls_lem}
use carqna_agent.S3.Search.Metadata.{IsGlobber, IsRow, joined, is_on_one_line, glob_lem}

abbrev object : Text → ℕ → Object
object key size = record {
  key = key;
  size = size;
  last_modified = codes "2026-08-15T10:00:00+00:00";
  last_modified_utc = codes "2026-08-15T10:00:00+00:00";
}

abbrev page : Page
page = record {
  common_prefixes = codes "docs/sub/" ∷ [];
  contents = object (codes "docs/") 0 ∷ object (codes "docs/memo.md") 2 ∷ [];
}

abbrev client : Client Store
client = client_of (page ∷ [])

abbrev stored : Store
stored = put_in (codes "insurance") (codes "docs/memo.md") (codes "ok") nothing

abbrev entry : Text → Bool → ℕ → Text → FileInfo
entry path is_dir size modified_at = record {
  path = path;
  is_dir = is_dir;
  size = size;
  modified_at = modified_at;
}

ls_root :
    ls client plain_utils docs (codes "/") stored
    ≡ done (
        entry (codes "/memo.md") false 2 (codes "2026-08-15T10:00:00+00:00")
        ∷ entry (codes "/sub/") true 0 []
        ∷ [])
unfolding ls dir_key_prefix page_entries sort_by_path text_le path_for text_eq starts_with strip
    flat_map
ls_root = refl

-- The page with names in place of keys.
abbrev named_page : Page
named_page = record {
  common_prefixes = codes "sub/" ∷ [];
  contents = object [] 0 ∷ object (codes "memo.md") 2 ∷ [];
}

listed :
    client.pages docs.bucket (keys_below docs (codes "/")) (some (codes "/")) stored
    ≡ listing_below (keys_below docs (codes "/")) (inr (named_page ∷ []))
unfolding strip
listed = refl

ls_lem_example :
    IsAnswerOf (codes "/") (inr (named_page ∷ [])) (ls client plain_utils docs (codes "/") stored)
ls_lem_example = ls_lem client plain_utils docs (codes "/") stored (inr (named_page ∷ [])) listed

-- A helper that finds /memo.md alone.
abbrev memo_if : Option FileData → Text
memo_if none = codes "No files found"
memo_if (some f) = codes "/memo.md"

abbrev memo_utils : Utils Text
memo_utils = record plain_utils {
  glob_search_files = λ files pattern path. memo_if (dict_get (codes "/memo.md") files);
}

memo_utils-IsGlobber : IsGlobber memo_utils
unfolding split_lines text_eq
memo_utils-IsGlobber files pattern path = go (dict_get (codes "/memo.md") files) refl
  where
    go :
        (r : Option FileData)
        → dict_get (codes "/memo.md") files ≡ r
        → (ps : List Text) × All (λ p. Has p files) ps × (memo_if r ≡ joined ps)
    go none e = ([], tt, refl)
    go (some f) e = (codes "/memo.md" ∷ [], ((f, e), tt), refl)

glob_memo :
    glob client memo_utils docs (codes "*.md") none stored
    ≡ returned (done (entry (codes "/memo.md") false 2 (codes "2026-08-15T10:00:00+00:00") ∷ []))
unfolding glob read_all_file_metadata iter_all_objects dict_get dict_set path_for root_prefix
    text_eq ends_with starts_with split_lines matches_of flat_map
glob_memo = refl

iterated_memo : iter_all_objects client memo_utils docs stored ≡ inr page.contents
unfolding iter_all_objects flat_map
iterated_memo = refl

one_line : All (λ obj. is_on_one_line docs obj ≡ true) page.contents
unfolding path_for starts_with ends_with
one_line = (refl, (refl, tt))

glob_lem_example :
    (files : Dict FileData) × ((pattern : Text) (path : Option Text)
      → (rows : List FileInfo) × (glob client memo_utils docs pattern path stored
          ≡ returned (done rows))
        × All (IsRow client memo_utils docs page.contents) rows
        × (map (λ r. r.path) rows ≡ (memo_utils-IsGlobber files pattern path).0))
glob_lem_example =
    glob_lem client memo_utils docs stored page.contents memo_utils-IsGlobber iterated_memo one_line
