-- ===== src/S3/Keys/Dirs.antt =====
-- The keys of the files of a directory.
use carqna_agent.Common.{
  ◌≡◌, [], ◌∷◌, ◌++◌, append_assoc, append-nil, arith, if◌then◌else◌, nonempty,
}
use carqna_agent.PyText.{Text, lstrip, strip}
use carqna_agent.PyText.Laws.{HeadNot, lstrip_of_HeadNot, strip-HeadNot}
use carqna_agent.S3.Keys.{Backend, is_slash, key_for, path_for, root_prefix, dir_key_prefix}
use carqna_agent.S3.Keys.Laws.{key_for-root_prefix, path_for-root_prefix, lstrip-slash}

-- The path of the file `name` in the directory `dir`.
unfoldable pub child_path : Text → Text → Text
child_path dir name =
    let rel = strip is_slash dir in 47 ∷ (if nonempty rel then rel ++ 47 ∷ name else name)

-- The directory's own part of a key.
abbrev pub dir_part : Text → Text
dir_part rel = if nonempty rel then rel ++ 47 ∷ [] else []

pub dir_key_prefix-root_prefix :
    (b : Backend) (dir : Text)
    → dir_key_prefix b dir ≡ root_prefix b ++ dir_part (strip is_slash dir)
unfolding dir_key_prefix root_prefix
dir_key_prefix-root_prefix b dir = ground (
  arith,
  append-nil (b.prefix ++ 47 ∷ []),
  append_assoc b.prefix (47 ∷ strip is_slash dir) (47 ∷ []),
  append_assoc b.prefix (47 ∷ []) (strip is_slash dir ++ 47 ∷ []),
)

child_path-dir_part :
    (dir name : Text) → child_path dir name ≡ 47 ∷ (dir_part (strip is_slash dir) ++ name)
unfolding child_path
child_path-dir_part dir name = ground (arith, append_assoc (strip is_slash dir) (47 ∷ []) name)

-- The path of a key right below a directory's prefix is that of the child of that name.
pub path_for-dir_key_prefix :
    (b : Backend) (dir name : Text)
    → path_for b (dir_key_prefix b dir ++ name) ≡ child_path dir name
path_for-dir_key_prefix b dir name = rw (
  dir_key_prefix-root_prefix b dir,
  append_assoc,
  path_for-root_prefix b,
  child_path-dir_part dir name,
)

dir_part-HeadNot :
    (rel name : Text)
    → HeadNot is_slash rel
    → HeadNot is_slash name
    → lstrip is_slash (dir_part rel ++ name) ≡ dir_part rel ++ name
dir_part-HeadNot [] name h k = lstrip_of_HeadNot is_slash name k
dir_part-HeadNot (c ∷ rel) name h k = lstrip_of_HeadNot is_slash _ h

-- The key of a child is the directory's prefix followed by the name, where no slash leads the name.
pub key_for-child_path :
    (b : Backend) (dir name : Text)
    → HeadNot is_slash name
    → key_for b (child_path dir name) ≡ dir_key_prefix b dir ++ name
key_for-child_path b dir name h = rw (
  key_for-root_prefix b,
  child_path-dir_part dir name,
  lstrip-slash,
  dir_part-HeadNot (strip is_slash dir) name (strip-HeadNot is_slash dir) h,
  dir_key_prefix-root_prefix b dir,
  append_assoc,
)
