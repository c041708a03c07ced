-- ===== src/Os.antt =====
-- The environment and the file system, as one snapshot, with what the program calls of `os`, `os.path`
-- and `open`.
use carqna_agent.Common.{ℕ, Bool, ◌==◌, Option, none, some, [], ◌∷◌, ◌++◌, if◌then◌else◌, nonempty}
use carqna_agent.PyText.{Text, codes, rstrip, ends_with}
use carqna_agent.PyText.Url.{before, rest_from}
use carqna_agent.PyDict.{get_or}
use carqna_agent.Errors.{Result}

-- `user_home` is the password database: the home of a name, or with `none` of the process's user.
-- `read_text` is open(path, "r").read().
pub record Os : Type 0 where
  pub environ : Text → Option Text
  pub user_home : Option Text → Option Text
  pub exists : Text → Bool
  pub read_text : Text → Result Text

-- os.getenv(name, default)
abbrev pub getenv : Os → Text → Text → Text
getenv os name default = get_or default (os.environ name)

abbrev pub is_sep : ℕ → Bool
is_sep c = c == 47

-- posixpath.join(a, b)
unfoldable pub join : Text → Text → Text
join a [] = if nonempty a then (if ends_with 47 a then a else a ++ 47 ∷ []) else []
join a (c ∷ b) =
    if is_sep c
    then c ∷ b
    else if nonempty a
    then (if ends_with 47 a then a ++ c ∷ b else a ++ 47 ∷ c ∷ b)
    else c ∷ b

-- The home that "~" or "~name" stands for.
abbrev pub or_home : Option Text → Option Text → Option Text
or_home (some home) own = some home
or_home none own = own

abbrev pub home_of : Os → Text → Option Text
home_of os [] = or_home (os.environ (codes "HOME")) (os.user_home none)
home_of os (c ∷ name) = os.user_home (some (c ∷ name))

-- (userhome.rstrip("/") + path[i:]) or "/"
abbrev pub or_root : Text → Text
or_root [] = 47 ∷ []
or_root (c ∷ s) = c ∷ s

abbrev pub under_home : Text → Text → Option Text → Text
under_home path rest none = path
under_home path rest (some home) = or_root (rstrip is_sep home ++ rest)

-- posixpath.expanduser(path)
unfoldable pub expanduser : Os → Text → Text
expanduser os [] = []
expanduser os (c ∷ s) =
    if c == 126
    then under_home (c ∷ s) (rest_from is_sep s) (home_of os (before is_sep s))
    else c ∷ s
