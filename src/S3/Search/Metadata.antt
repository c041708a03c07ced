-- ===== src/S3/Search/Metadata.antt =====
-- The files that `glob` matches.
use mathlib.Core.Path.{subst}
use mathlib.Core.Bool.{Bool-set}
use mathlib.Core.List.{Mem, mem-cons_self, mem-cons_of_mem, not-mem-nil, eq-or-mem_of_mem-cons}
use carqna_agent.Common.{
  ℕ, ◌≡◌, ◌⊎◌, refl, sym, ap, ◌∙◌, ◌++◌, ◌==◌, every_one, any, any-false, ◌||◌, not, arith, Bool,
  true, false, Option, some, List, [], ◌∷◌, map, All, Bool-cases, inl, inr, if◌then◌else◌,
}
use carqna_agent.PyText.{Text, codes, text_eq}
use carqna_agent.PyText.Laws.{text_eq_iff}
use carqna_agent.Errors.{returned}
use carqna_agent.S3.Keys.{Backend, path_for}
use carqna_agent.S3.Client.{Object, Client, done, FileData, FileInfo, Utils}
use carqna_agent.PyDict.{Dict, dict_set, dict_get}
use carqna_agent.S3.Search.{
  is_marker, iter_all_objects, read_all_file_metadata, metadata, add_metadata, matches_of, found,
  split_lines, glob,
}
use carqna_agent.PyDict.Laws.{Has, dict_get-dict_set}

-- "\n".join of at least one path
abbrev pub lines_of : Text → List Text → Text
lines_of p [] = p
lines_of p (q ∷ qs) = p ++ 10 ∷ lines_of q qs

abbrev pub joined : List Text → Text
joined [] = codes "No files found"
joined (p ∷ ps) = lines_of p ps

-- The helper's contract, for every dict: it joins paths of the dict by newlines, or answers "No files
-- found" if there are none.
abbrev pub IsGlobber : {M : Type 0} → Utils M → Type 0
IsGlobber u =
    (files : Dict FileData) (pattern : Text) (path : Option Text)
    → (ps : List Text) × All (λ p. Has p files) ps
      × (u.glob_search_files files pattern path ≡ joined ps)

abbrev pub IsOneLine : Text → Type 0
IsOneLine p = All (λ c. (c == 10) ≡ false) p

split_line : (p rest : Text) → IsOneLine p → split_lines (p ++ 10 ∷ rest) ≡ p ∷ split_lines rest
unfolding split_lines
split_line [] rest h = refl
split_line (c ∷ p) rest (h, hs) = rw (h, split_line p rest hs) refl

split_last : (p : Text) → IsOneLine p → split_lines p ≡ p ∷ []
unfolding split_lines
split_last [] h = refl
split_last (c ∷ p) (h, hs) = rw (h, split_last p hs) refl

split_lines-lines_of :
    (p : Text) (ps : List Text)
    → IsOneLine p
    → All IsOneLine ps
    → split_lines (lines_of p ps) ≡ p ∷ ps
split_lines-lines_of p [] h hs = split_last p h
split_lines-lines_of p (q ∷ qs) h (k, ks) =
    split_line p (lines_of q qs) h ∙ ap (λ ls. p ∷ ls) (split_lines-lines_of q qs k ks)

some_found :
    (p rest : Text) (ps : List Text)
    → p ≡ 47 ∷ rest
    → text_eq (lines_of p ps) (codes "No files found") ≡ false
unfolding text_eq
some_found p rest [] e = rw e refl
some_found p rest (q ∷ qs) e = rw e refl

-- A test that every element passes is passed by a member.
member_passes :
    {A : Type 0} (t : A → Bool) (x : A) (xs : List A)
    → All (λ y. t y ≡ true) xs
    → Mem x xs
    → t x ≡ true
member_passes t x [] h m = absurd (not-mem-nil m)
member_passes t x (y ∷ ys) (h, hs) m =
    ∥∥₁_rec (Bool-set (t x) true)
      (λ c. elim c [ inl e ↦ ap t e ∙ h | inr n ↦ member_passes t x ys hs n ])
      (eq-or-mem_of_mem-cons m)

-- The path that an object is shown under has no newline in it; a directory marker is not shown.
abbrev pub is_on_one_line : Backend → Object → Bool
is_on_one_line b obj = is_marker obj || not (any (λ c. c == 10) (path_for b obj.key))

module _ {S M : Type 0} (client : Client S) (u : Utils M) (b : Backend) where
  abbrev pub row_of : Object → FileInfo
  row_of obj = record {
    path = path_for b obj.key;
    is_dir = false;
    size = obj.size;
    modified_at = obj.last_modified_utc;
  }

  -- A row for one of the objects that is no directory marker.
  abbrev pub IsRow : List Object → FileInfo → Type 0
  IsRow objs row = (obj : Object) × Mem obj objs × (is_marker obj ≡ false) × (row ≡ row_of obj)

  module _ (all : List Object) where
    abbrev IsMetadata : Dict ℕ → Text → FileData → Type 0
    IsMetadata sizes p f =
        (obj : Object) × Mem obj all
        × (is_marker obj ≡ false)
        × (path_for b obj.key ≡ p)
        × (f ≡ metadata client u b obj)
        × (dict_get p sizes ≡ some obj.size)

    abbrev IsAligned : Dict FileData × Dict ℕ → Type 0
    IsAligned d = (p : Text) (f : FileData) → dict_get p d.0 ≡ some f → IsMetadata d.1 p f

    some_file : {x y : FileData} → some x ≡ some y → x ≡ y
    some_file s = cc

    IsAligned-dict_set :
        (obj : Object) (d : Dict FileData × Dict ℕ)
        → Mem obj all
        → is_marker obj ≡ false
        → IsAligned d
        → IsAligned (
          dict_set (path_for b obj.key) (metadata client u b obj) d.0,
          dict_set (path_for b obj.key) obj.size d.1,
        )
    IsAligned-dict_set obj d m k h p f e =
        go (Bool-cases (text_eq (path_for b obj.key) p))
          (sym (dict_get-dict_set p (path_for b obj.key) (metadata client u b obj) d.0) ∙ e)
      where
        sizes' : Dict ℕ
        sizes' = dict_set (path_for b obj.key) obj.size d.1

        go :
            (text_eq (path_for b obj.key) p ≡ true) ⊎ (text_eq (path_for b obj.key) p ≡ false)
            → (if text_eq (path_for b obj.key) p
                then some (metadata client u b obj)
                else dict_get p d.0)
              ≡ some f
            → IsMetadata sizes' p f
        go (inl a) x = (
          obj,
          m,
          k,
          (text_eq_iff (path_for b obj.key) p).0 a,
          some_file (sym (rw a at x)),
          dict_get-dict_set p (path_for b obj.key) obj.size d.1 ∙ rw a refl,
        )
        go (inr a) x =
            let (o, m', k', q, w, z) = h p f (rw a at x) in
            (o, m', k', q, w, dict_get-dict_set p (path_for b obj.key) obj.size d.1 ∙ rw a z)

    IsAligned-add_metadata :
        (objs : List Object) (d : Dict FileData × Dict ℕ)
        → ((obj : Object) → Mem obj objs → Mem obj all)
        → IsAligned d
        → IsAligned (add_metadata client u b objs d)
    IsAligned-add_metadata [] d sub h = h
    IsAligned-add_metadata (obj ∷ objs) d sub h =
        IsAligned-add_metadata objs (if is_marker obj then d else after)
          (λ o m. sub o (mem-cons_of_mem obj m)) (one (is_marker obj) refl)
      where
        after : Dict FileData × Dict ℕ
        after = (
          dict_set (path_for b obj.key) (metadata client u b obj) d.0,
          dict_set (path_for b obj.key) obj.size d.1,
        )

        one : (c : Bool) → is_marker obj ≡ c → IsAligned (if c then d else after)
        one true k = h
        one false k = IsAligned-dict_set obj d (sub obj mem-cons_self) k h

    -- The rows of paths that are in the dicts.
    abbrev Rows : Dict FileData × Dict ℕ → List Text → Type 0
    Rows d ps =
        (rows : List FileInfo) × (matches_of client u b d ps ≡ returned rows)
        × All (IsRow all) rows
        × (map (λ r. r.path) rows ≡ ps)

    Rows-matches_of :
        (d : Dict FileData × Dict ℕ) (ps : List Text)
        → IsAligned d
        → All (λ p. Has p d.0) ps
        → Rows d ps
    unfolding matches_of
    Rows-matches_of d [] h k = ([], refl, tt, refl)
    Rows-matches_of d (p ∷ ps) h ((f, e), k) =
        let (obj, m, c, q, w, z) = h p f e in
        let (rows, x, y, v) = Rows-matches_of d ps h k in
        (row_of obj ∷ rows, rw (e, z, w, x, sym q) refl, ((obj, m, c, refl), y), rw (q, v) refl)

  -- What the helper's paths are like: shown paths of objects.
  module _ (objs : List Object) (one_line : All (λ obj. is_on_one_line b obj ≡ true) objs)
      (d : Dict FileData × Dict ℕ) (aligned : IsAligned objs d) where
    path_for-IsOneLine : (p : Text) → Has p d.0 → IsOneLine p
    path_for-IsOneLine p (f, e) =
        let (obj, m, k, q, w, z) = aligned p f e in
        subst IsOneLine q (
          any-false (λ c. c == 10) (path_for b obj.key)
            (passed k (member_passes (is_on_one_line b) obj objs one_line m)))
      where
        passed : {m n : Bool} → m ≡ false → (m || not n) ≡ true → n ≡ false
        passed e f = ground arith

    rooted : (p : Text) → Has p d.0 → (rest : Text) × (p ≡ 47 ∷ rest)
    unfolding path_for
    rooted p (f, e) = let (obj, m, k, q, w, z) = aligned p f e in (_, sym q)

    found-joined :
        (ps : List Text)
        → All (λ p. Has p d.0) ps
        → (rows : List FileInfo) × (found client u b d (joined ps) ≡ returned (done rows))
          × All (IsRow objs) rows
          × (map (λ r. r.path) rows ≡ ps)
    unfolding text_eq
    found-joined [] h = ([], refl, tt, refl)
    found-joined (p ∷ ps) (h, hs) =
        let (rows, x, y, v) = Rows-matches_of objs d (p ∷ ps) aligned (h, hs) in
        let (rest, e) = rooted p h in
        let lines =
          split_lines-lines_of p ps (path_for-IsOneLine p h)
            (every_one _ _ ps hs path_for-IsOneLine) in
        (rows, rw (some_found p rest ps e, lines, x) refl, y, v)

  -- When the listing of everything below the root gives these objects, and no path that they are
  -- shown under has a newline in it, but for the directory markers: no `glob` raises. It answers one
  -- row for each of the paths that the helper finds in one dict of files, in their order, and each
  -- row has the size and the time of one of the objects, which is no directory marker and is shown
  -- under that path.
  pub glob_lem :
      (s : S) (objs : List Object) (g : IsGlobber u)
      → iter_all_objects client u b s ≡ inr objs
      → All (λ obj. is_on_one_line b obj ≡ true) objs
      → (files : Dict FileData) × ((pattern : Text) (path : Option Text)
          → (rows : List FileInfo) × (glob client u b pattern path s ≡ returned (done rows))
            × All (IsRow objs) rows
            × (map (λ r. r.path) rows ≡ (g files pattern path).0))
  unfolding glob read_all_file_metadata dict_get
  glob_lem s objs g e one_line = (
    d.0,
    λ pattern path.
        let (ps, has, r) = g d.0 pattern path in
        rw (e, r) (found-joined objs one_line d aligned ps has),
  )
    where
      d : Dict FileData × Dict ℕ
      d = add_metadata client u b objs ([], [])

      aligned : IsAligned objs d
      aligned = IsAligned-add_metadata objs objs ([], []) (λ o m. m) (λ p f z. cc)
