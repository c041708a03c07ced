-- ===== src/PyText.antt =====
-- Python's `str`: a sequence of code points, with the methods that the program calls.
pub mod Laws
pub mod Int
pub mod Utf8
pub mod Url
pub mod Decimal
use Prim.Native.Char.{code}
use Prim.Native.String.{String}
use carqna_agent.Common.{
  ℕ, ◌+◌, ◌≡◌, Bool, true, false, not, ◌&&◌, ◌||◌, List, [], ◌∷◌, ◌++◌, map, reverse, ◌==◌, leb,
  length, drop, if◌then◌else◌,
}

abbrev pub Text : Type 0
Text = List ℕ

-- A literal.
abbrev pub codes : String → Text
codes String.[] = []
codes (String.◌∷◌ c s) = code c ∷ codes s

-- s == t
unfoldable pub text_eq : Text → Text → Bool
text_eq [] [] = true
text_eq (c ∷ s) (d ∷ t) = c == d && text_eq s t
text_eq _ _ = false

-- s.startswith(t)
unfoldable pub starts_with : Text → Text → Bool
starts_with s [] = true
starts_with [] (d ∷ t) = false
starts_with (c ∷ s) (d ∷ t) = c == d && starts_with s t

-- s.lstrip(chars), for the characters that satisfy the test
unfoldable pub lstrip : (ℕ → Bool) → Text → Text
lstrip p [] = []
lstrip p (c ∷ s) = if p c then lstrip p s else c ∷ s

-- s.rstrip(chars)
unfoldable pub rstrip : (ℕ → Bool) → Text → Text
unfolding lstrip
rstrip p s = reverse (lstrip p (reverse s))

-- s.strip(chars)
unfoldable pub strip : (ℕ → Bool) → Text → Text
unfolding rstrip
strip p s = rstrip p (lstrip p s)

-- s.endswith(c)
unfoldable pub ends_with : ℕ → Text → Bool
ends_with c [] = false
ends_with c (d ∷ []) = d == c
ends_with c (d ∷ e ∷ s) = ends_with c (e ∷ s)

-- One character of ASCII or Latin-1, as `str.lower` maps it.
abbrev pub lower_char : ℕ → ℕ
lower_char c =
    if leb 65 c && leb c 90 || leb 192 c && leb c 222 && not (c == 215) then c + 32 else c

-- s.lower(), where every code point is below 256
unfoldable pub lower : Text → Text
lower = map lower_char

-- s in collection
unfoldable pub text_mem : Text → List Text → Bool
unfolding text_eq
text_mem s [] = false
text_mem s (t ∷ ts) = text_eq s t || text_mem s ts

-- c.isspace(), which `str.strip` without an argument removes
abbrev pub is_space : ℕ → Bool
is_space c =
    leb 9 c && leb c 13
    || leb 28 c && leb c 32
    || c == 133
    || c == 160
    || c == 5760
    || leb 8192 c && leb c 8202
    || c == 8232
    || c == 8233
    || c == 8239
    || c == 8287
    || c == 12288
