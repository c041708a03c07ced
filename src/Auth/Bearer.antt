-- ===== src/Auth/Bearer.antt =====
-- `get_bearer_token` of src/agent/auth.py. Header values reach it decoded as Latin-1.
pub mod Laws
use carqna_agent.Common.{
  ℕ, Bool, ◌||◌, not, Option, none, some, List, [], ◌∷◌, ◌==◌, if◌then◌else◌, nonempty,
}
use carqna_agent.PyText.{Text, codes, starts_with, strip, lower, is_space}
use carqna_agent.Errors.{Result, returned, raised, http_exception, library_error, ◌>>=◌}

-- s.split(" ", 1)[1]
unfoldable pub after_space : Text → Result Text
after_space [] = raised (library_error (codes "IndexError"))
after_space (c ∷ s) = if c == 32 then returned s else after_space s

abbrev pub missing_header : Text
missing_header = codes "Missing or malformed Authorization header"

-- The argument is `request.headers.get("authorization")`.
unfoldable pub get_bearer_token : Option Text → Result Text
get_bearer_token none = raised (http_exception 401 missing_header)
get_bearer_token (some auth_header) =
    if not (nonempty auth_header) || not (starts_with (lower auth_header) (codes "bearer "))
    then raised (http_exception 401 missing_header)
    else (after_space auth_header >>= λ rest. returned (strip is_space rest))
