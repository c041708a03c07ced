-- ===== src/S3/Search/Listing.antt =====
-- The answer of `ls`.
use mathlib.Core.List.{Perm, flat_map}
use mathlib.Core.List.Perm
use mathlib.Core.Path.{subst}
use carqna_agent.Common.{
  ◌≡◌, ◌⊎◌, refl, sym, true, false, not, some, List, [], ◌∷◌, ◌++◌, map, filter, arith, All,
  every_one, Bool-cases, ==_refl, inl, inr, nonempty, if◌then◌else◌,
}
use carqna_agent.PyText.{Text, codes, text_eq, strip}
use carqna_agent.S3.Keys.{Backend, is_slash, dir_key_prefix, root_prefix}
use carqna_agent.S3.Keys.Dirs.{
  child_path, dir_part, dir_key_prefix-root_prefix, path_for-dir_key_prefix,
}
use carqna_agent.S3.Client.{Failure, Object, Page, Client, Answer, failed, done, FileInfo, Utils}
use carqna_agent.S3.Files.{str_of}
use carqna_agent.S3.Search.{
  text_le, insert_by_path, sort_by_path, dir_entry, file_entry, page_entries, list_pages, ls,
}

text_le-total : (s t : Text) → text_le s t ≡ false → text_le t s ≡ true
unfolding text_le
text_le-total [] t h = cc
text_le-total (c ∷ s) [] h = refl
text_le-total (c ∷ s) (d ∷ t) h = ground (arith, text_le-total s t)

text_le_trans : (s t r : Text) → text_le s t ≡ true → text_le t r ≡ true → text_le s r ≡ true
unfolding text_le
text_le_trans [] t r h k = refl
text_le_trans (c ∷ s) [] r h k = cc
text_le_trans (c ∷ s) (d ∷ t) [] h k = cc
text_le_trans (c ∷ s) (d ∷ t) (e ∷ r) h k = ground (arith, text_le_trans s t r)

abbrev AllAfter : Text → List FileInfo → Type 0
AllAfter p es = All (λ e. text_le p e.path ≡ true) es

-- Each entry's path is at most the paths behind it.
abbrev pub IsSorted : List FileInfo → Type 0
IsSorted [] = Unit
IsSorted (e ∷ es) = AllAfter e.path es × IsSorted es

AllAfter-insert_by_path :
    (p : Text) (e : FileInfo) (es : List FileInfo)
    → text_le p e.path ≡ true
    → AllAfter p es
    → AllAfter p (insert_by_path e es)
AllAfter-insert_by_path p e [] h k = (h, tt)
AllAfter-insert_by_path p e (f ∷ fs) h (k, ks) = elim (Bool-cases (text_le e.path f.path)) [
  | inl x ↦ rw x (h, (k, ks))
  | inr x ↦ rw x (k, AllAfter-insert_by_path p e fs h ks)
]

insert_by_path-IsSorted :
    (e : FileInfo) (es : List FileInfo) → IsSorted es → IsSorted (insert_by_path e es)
insert_by_path-IsSorted e [] h = (tt, tt)
insert_by_path-IsSorted e (f ∷ fs) (h, hs) = elim (Bool-cases (text_le e.path f.path)) [
  | inl x ↦ rw x ((x, every_one _ _ fs h (λ g k. text_le_trans e.path f.path g.path x k)), (h, hs))
  | inr x ↦ rw x (
    AllAfter-insert_by_path f.path e fs (text_le-total e.path f.path x) h,
    insert_by_path-IsSorted e fs hs,
  )
]

insert_by_path-perm : (e : FileInfo) (es : List FileInfo) → Perm (insert_by_path e es) (e ∷ es)
insert_by_path-perm e [] = Perm.refl (e ∷ [])
insert_by_path-perm e (f ∷ fs) = elim (Bool-cases (text_le e.path f.path)) [
  | inl x ↦ rw x (Perm.refl (e ∷ f ∷ fs))
  | inr x ↦ rw x (Perm.trans (Perm.cons f (insert_by_path-perm e fs)) (Perm.swap e f fs))
]

sort_by_path-perm : (es : List FileInfo) → Perm (sort_by_path es) es
unfolding sort_by_path
sort_by_path-perm [] = Perm.refl []
sort_by_path-perm (e ∷ es) =
    Perm.trans (insert_by_path-perm e (sort_by_path es)) (Perm.cons e (sort_by_path-perm es))

sort_by_path-IsSorted : (es : List FileInfo) → IsSorted (sort_by_path es)
unfolding sort_by_path
sort_by_path-IsSorted [] = tt
sort_by_path-IsSorted (e ∷ es) = insert_by_path-IsSorted e _ (sort_by_path-IsSorted es)

-- The prefix of the keys below the directory `path`: the root's, and the directory's own part.
abbrev pub keys_below : Backend → Text → Text
keys_below b path =
    (if nonempty b.prefix then b.prefix ++ 47 ∷ [] else []) ++ dir_part (strip is_slash path)

abbrev pub object_below : Text → Object → Object
object_below key_prefix obj = record obj { key = key_prefix ++ obj.key }

-- A page of a listing with names in place of keys: the keys are the names behind the prefix, as S3
-- answers every key and every common prefix.
abbrev pub below : Text → Page → Page
below key_prefix page = record {
  common_prefixes = map (λ name. key_prefix ++ name) page.common_prefixes;
  contents = map (object_below key_prefix) page.contents;
}

abbrev pub listing_below : Text → Failure ⊎ List Page → Failure ⊎ List Page
listing_below key_prefix (inl e) = inl e
listing_below key_prefix (inr names) = inr (map (below key_prefix) names)

-- The entry of a subdirectory and of a file of the directory `path`, by its name.
abbrev pub dir_row : Text → Text → FileInfo
dir_row path name = record {
  path = child_path path name;
  is_dir = true;
  size = 0;
  modified_at = [];
}

abbrev pub file_row : Text → Object → FileInfo
file_row path obj = record {
  path = child_path path obj.key;
  is_dir = false;
  size = obj.size;
  modified_at = obj.last_modified;
}

-- What is shown of a page; the object without a name is the directory's marker.
abbrev pub rows_of : Text → Page → List FileInfo
rows_of path page =
    map (dir_row path) page.common_prefixes
    ++ map (file_row path) (filter (λ obj. nonempty obj.key) page.contents)

-- What `ls` answers: an error exactly when the listing fails, else the entries of all the pages,
-- sorted by path.
abbrev pub IsAnswerOf : Text → Failure ⊎ List Page → Answer (List FileInfo) → Type 0
IsAnswerOf path (inl e) a =
    a ≡ failed (codes "Cannot list" ++ codes " '" ++ path ++ codes "': " ++ str_of e)
IsAnswerOf path (inr names) a =
    (entries : List FileInfo) × (a ≡ done entries)
    × Perm entries (flat_map (rows_of path) names)
    × IsSorted entries

text_eq-append : (s t : Text) → text_eq (s ++ t) s ≡ not (nonempty t)
unfolding text_eq
text_eq-append [] [] = refl
text_eq-append [] (c ∷ t) = refl
text_eq-append (c ∷ s) t = rw (==_refl c) (text_eq-append s t)

module _ {S M : Type 0} (client : Client S) (u : Utils M) (b : Backend) (path : Text) where
  keys_below-eq : dir_key_prefix b path ≡ keys_below b path
  unfolding root_prefix
  keys_below-eq = dir_key_prefix-root_prefix b path

  dir_entry-row :
      (name : Text) → dir_entry client u b (dir_key_prefix b path ++ name) ≡ dir_row path name
  dir_entry-row name = rw (path_for-dir_key_prefix b path name) refl

  dirs-rows :
      (names : List Text)
      → map (dir_entry client u b) (map (λ name. dir_key_prefix b path ++ name) names)
        ≡ map (dir_row path) names
  dirs-rows [] = refl
  dirs-rows (name ∷ names) = rw (path_for-dir_key_prefix b path name, dirs-rows names) refl

  files-rows :
      (objs : List Object)
      → map (file_entry client u b) (
          filter
            (λ obj. not (text_eq obj.key (dir_key_prefix b path)))
            (map (object_below (dir_key_prefix b path)) objs))
        ≡ map (file_row path) (filter (λ obj. nonempty obj.key) objs)
  files-rows [] = refl
  files-rows (obj ∷ objs) = elim (Bool-cases (nonempty obj.key)) [
    | inl e ↦
        rw (text_eq-append (dir_key_prefix b path) obj.key, e)
          (rw (path_for-dir_key_prefix b path obj.key, files-rows objs) refl)
    | inr e ↦ rw (text_eq-append (dir_key_prefix b path) obj.key, e) (files-rows objs)
  ]

  pages-rows :
      (names : List Page)
      → flat_map
          (page_entries client u b (dir_key_prefix b path))
          (map (below (dir_key_prefix b path)) names)
        ≡ flat_map (rows_of path) names
  unfolding page_entries flat_map
  pages-rows [] = refl
  pages-rows (page ∷ names) =
      rw (dirs-rows page.common_prefixes, files-rows page.contents, pages-rows names) refl

  answers :
      (names : Failure ⊎ List Page)
      → IsAnswerOf path names (
          list_pages client u b path
            (dir_key_prefix b path)
            (listing_below (dir_key_prefix b path) names))
  answers (inl e) = refl
  answers (inr names) =
      (_, refl, subst (Perm _) (pages-rows names) (sort_by_path-perm _), sort_by_path-IsSorted _)

  -- When the client answers the listing of the keys below the directory, with the delimiter "/", by
  -- an error, `ls` answers that error. When it gives pages, with keys that start with the prefix as
  -- S3's do, `ls` answers one entry for each subdirectory and each file of all the pages, in the
  -- order of their paths: with the path of the child of that name in the directory, and with the
  -- size and the time of a file; the directory's own marker has none.
  pub ls_lem :
      (s : S) (names : Failure ⊎ List Page)
      → client.pages b.bucket (keys_below b path) (some (codes "/")) s
        ≡ listing_below (keys_below b path) names
      → IsAnswerOf path names (ls client u b path s)
  unfolding ls
  ls_lem s names h = rw (rw (sym keys_below-eq) at h) (answers names)
