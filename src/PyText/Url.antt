-- ===== src/PyText/Url.antt =====
-- urllib.parse.urlsplit (Python 3.13): the scheme, the network location and the path.
pub mod Laws
use carqna_agent.Common.{
  ℕ, Bool, true, false, not, ◌&&◌, ◌||◌, [], ◌∷◌, List, ◌==◌, leb, ltb, drop, if◌then◌else◌, filter,
  any, nonempty,
}
use carqna_agent.PyText.{Text, codes, starts_with, lstrip, lower}
use carqna_agent.Errors.{Result, returned, raised, value_error, ◌>>=◌}

-- The longest beginning without such a character, and the rest.
unfoldable pub before : (ℕ → Bool) → Text → Text
before p [] = []
before p (c ∷ s) = if p c then [] else c ∷ before p s

unfoldable pub rest_from : (ℕ → Bool) → Text → Text
rest_from p [] = []
rest_from p (c ∷ s) = if p c then c ∷ s else rest_from p s

-- _WHATWG_C0_CONTROL_OR_SPACE
abbrev pub is_c0 : ℕ → Bool
is_c0 c = leb c 32

-- _UNSAFE_URL_BYTES_TO_REMOVE
abbrev pub is_unsafe : ℕ → Bool
is_unsafe c = c == 9 || c == 10 || c == 13

abbrev pub is_alpha : ℕ → Bool
is_alpha c = leb 65 c && leb c 90 || leb 97 c && leb c 122

-- scheme_chars
abbrev pub is_scheme_char : ℕ → Bool
is_scheme_char c = is_alpha c || leb 48 c && leb c 57 || c == 43 || c == 45 || c == 46

abbrev pub is_colon : ℕ → Bool
is_colon c = c == 58

-- The characters that end a network location: / ? #
abbrev pub is_delimiter : ℕ → Bool
is_delimiter c = c == 47 || c == 63 || c == 35

abbrev pub head_is_alpha : Text → Bool
head_is_alpha [] = false
head_is_alpha (c ∷ s) = is_alpha c

-- The text in front of the first colon is a scheme.
abbrev pub has_scheme : Text → Bool
has_scheme url =
    any is_colon url
    && (head_is_alpha url && not (any (λ c. not (is_scheme_char c)) (before is_colon url)))

pub record SplitResult : Type 0 where
  pub scheme : Text
  pub netloc : Text
  pub path : Text

-- url.split("#", 1)[0].split("?", 1)[0]
abbrev pub path_part : Text → Text
path_part url = before (λ c. c == 63) (before (λ c. c == 35) url)

abbrev pub has_open : Text → Bool
has_open netloc = any (λ c. c == 91) netloc

abbrev pub has_close : Text → Bool
has_close netloc = any (λ c. c == 93) netloc

abbrev pub is_ascii : Text → Bool
is_ascii s = not (any (λ c. leb 128 c) s)

-- The checks of a network location. `refused` stands for those on an address in brackets and on the
-- compatibility forms of characters beyond ASCII, which the standard library has tables for.
abbrev pub check_netloc : (Text → Bool) → Text → Result (Unit {0})
check_netloc refused netloc =
    if has_open netloc && not (has_close netloc) || has_close netloc && not (has_open netloc)
    then raised (value_error (codes "Invalid IPv6 URL"))
    else if (has_open netloc || not (is_ascii netloc)) && refused netloc
    then raised (value_error netloc)
    else returned tt

-- The part behind the scheme.
abbrev pub split_rest : (Text → Bool) → Text → Text → Result SplitResult
split_rest refused scheme url =
    if starts_with url (codes "//")
    then (check_netloc refused (before is_delimiter (drop 2 url)) >>= λ _. returned (record {
      scheme = scheme;
      netloc = before is_delimiter (drop 2 url);
      path = path_part (rest_from is_delimiter (drop 2 url));
    }))
    else returned (record { scheme = scheme; netloc = []; path = path_part url })

abbrev pub split_clean : (Text → Bool) → Text → Result SplitResult
split_clean refused url =
    if has_scheme url
    then split_rest refused (lower (before is_colon url)) (drop 1 (rest_from is_colon url))
    else split_rest refused [] url

unfoldable pub urlsplit : (Text → Bool) → Text → Result SplitResult
urlsplit refused url = split_clean refused (filter (λ c. not (is_unsafe c)) (lstrip is_c0 url))
