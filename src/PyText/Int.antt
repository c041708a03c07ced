-- ===== src/PyText/Int.antt =====
-- Python's `int(s)` of a text.
pub mod Laws
use carqna_agent.Common.{
  ℕ, zero, suc, ◌+◌, ◌-◌, ◌*◌, ℤ, pos, negsuc, Bool, true, false, ◌&&◌, Option, none, some, List,
  [], ◌∷◌, map, ◌==◌, leb, ltb, length, filter, not, if◌then◌else◌,
}
use carqna_agent.PyText.{Text, strip, is_space}

-- The zeros of Unicode's decimal digits (version 15.1); each starts a run of ten.
abbrev decimal_zeros : List ℕ
decimal_zeros =
    48 ∷ 1632 ∷ 1776 ∷ 1984 ∷ 2406 ∷ 2534 ∷ 2662 ∷ 2790 ∷ 2918 ∷ 3046 ∷ 3174 ∷ 3302 ∷ 3430 ∷ 3558
    ∷ 3664 ∷ 3792 ∷ 3872 ∷ 4160 ∷ 4240 ∷ 6112 ∷ 6160 ∷ 6470 ∷ 6608 ∷ 6784 ∷ 6800 ∷ 6992 ∷ 7088
    ∷ 7232 ∷ 7248 ∷ 42528 ∷ 43216 ∷ 43264 ∷ 43472 ∷ 43504 ∷ 43600 ∷ 44016 ∷ 65296 ∷ 66720 ∷ 68912
    ∷ 69734 ∷ 69872 ∷ 69942 ∷ 70096 ∷ 70384 ∷ 70736 ∷ 70864 ∷ 71248 ∷ 71360 ∷ 71472 ∷ 71904 ∷ 72016
    ∷ 72784 ∷ 73040 ∷ 73120 ∷ 73552 ∷ 92768 ∷ 92864 ∷ 93008 ∷ 120782 ∷ 120792 ∷ 120802 ∷ 120812
    ∷ 120822 ∷ 123200 ∷ 123632 ∷ 124144 ∷ 125264 ∷ 130032 ∷ []

abbrev digit_from : List ℕ → ℕ → Option ℕ
digit_from [] c = none
digit_from (z ∷ zs) c = if leb z c && leb c (z + 9) then some (c - z) else digit_from zs c

-- unicodedata.decimal(c)
unfoldable pub decimal : ℕ → Option ℕ
decimal c = digit_from decimal_zeros c

-- The digits, with single underscores between them; the flag says that a digit came just before.
unfoldable pub digits_from : Bool → ℕ → Text → Option ℕ
digits_from true n [] = some n
digits_from false n [] = none
digits_from after_digit n (c ∷ s) = elim (decimal c) [
  | some d ↦ digits_from true (n * 10 + d) s
  | none ↦ if after_digit && c == 95 then digits_from false n s else none
]

-- sys.get_int_max_str_digits()
abbrev pub max_str_digits : ℕ
max_str_digits = 4300

abbrev signed : Bool → ℕ → ℤ
signed false n = pos n
signed true zero = pos zero
signed true (suc n) = negsuc n

abbrev magnitude : Bool → Text → Option ℤ
magnitude negative s =
    if ltb max_str_digits (length (filter (λ c. not (c == 95)) s))
    then none
    else elim (digits_from false 0 s) [ none ↦ none | some n ↦ some (signed negative n) ]

abbrev unsigned : Text → Option ℤ
unsigned [] = none
unsigned (c ∷ s) =
    if c == 45
    then magnitude true s
    else if c == 43
    then magnitude false s
    else magnitude false (c ∷ s)

-- The white space that `int` passes over around the number: Unicode's, but for U+001C to U+001F.
abbrev pub int_space : ℕ → Bool
int_space c = is_space c && not (leb 28 c && leb c 31)

-- int(s); `none` stands for ValueError
unfoldable pub parse_int : Text → Option ℤ
parse_int s = unsigned (strip int_space s)
