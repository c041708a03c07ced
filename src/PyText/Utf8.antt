-- ===== src/PyText/Utf8.antt =====
-- `str.encode("utf-8")` and `bytes.decode("utf-8")`, strict, and base64.standard_b64encode. A byte is
-- a number below 256.
pub mod Laws
use mathlib.Core.Option
use carqna_agent.Common.{
  ℕ, ◌+◌, ◌*◌, ◌-◌, ◌/◌, ◌%◌, Bool, false, ◌&&◌, Option, none, some, List, [], ◌∷◌, ◌++◌, ltb, leb,
  ◌==◌, length, if◌then◌else◌,
}
use carqna_agent.PyText.{Text, text_eq}

abbrev pub Bytes : Type 0
Bytes = List ℕ

-- The trail byte of six bits.
abbrev pub trail : ℕ → ℕ
trail n = 128 + n % 64

-- The encoding of one code point; a surrogate has none.
unfoldable pub utf8_char : ℕ → Option Bytes
utf8_char c =
    if ltb c 128
    then some (c ∷ [])
    else if ltb c 2048
    then some ((192 + c / 64) ∷ trail c ∷ [])
    else if leb 55296 c && ltb c 57344
    then none
    else if ltb c 65536
    then some ((224 + c / 4096) ∷ trail (c / 64) ∷ trail c ∷ [])
    else if ltb c 1114112
    then some ((240 + c / 262144) ∷ trail (c / 4096) ∷ trail (c / 64) ∷ trail c ∷ [])
    else none

abbrev pub append_to : Option Bytes → Option Bytes → Option Bytes
append_to (some s) (some t) = some (s ++ t)
append_to (some s) none = none
append_to none t = none

-- none: UnicodeEncodeError
unfoldable pub encode : Text → Option Bytes
encode [] = some []
encode (c ∷ cs) = append_to (utf8_char c) (encode cs)

-- How many bytes a lead byte announces.
unfoldable pub lead_size : ℕ → ℕ
lead_size a =
    if ltb a 128
    then 1
    else if ltb a 192
    then 0
    else if ltb a 224
    then 2
    else if ltb a 240
    then 3
    else if ltb a 248
    then 4
    else 0

abbrev pub is_spelt : Option Bytes → Bytes → Bool
is_spelt none q = false
is_spelt (some s) q = text_eq s q

abbrev pub check : ℕ → Bytes → Option ℕ
check c q = if is_spelt (utf8_char c) q then some c else none

-- The code point that the bytes are the encoding of.
unfoldable pub char_of : Bytes → Option ℕ
char_of (a ∷ []) = if lead_size a == 1 then check a (a ∷ []) else none
char_of (a ∷ b ∷ []) =
    if lead_size a == 2 then check ((a - 192) * 64 + (b - 128)) (a ∷ b ∷ []) else none
char_of (a ∷ b ∷ c ∷ []) =
    if lead_size a == 3
    then check ((a - 224) * 4096 + (b - 128) * 64 + (c - 128)) (a ∷ b ∷ c ∷ [])
    else none
char_of (a ∷ b ∷ c ∷ d ∷ []) =
    if lead_size a == 4
    then check ((a - 240) * 262144 + (b - 128) * 4096 + (c - 128) * 64 + (d - 128))
        (a ∷ b ∷ c ∷ d ∷ [])
    else none
char_of q = none

-- More bytes of the code point are to come.
unfoldable pub unfinished : Bytes → Bool
unfinished [] = false
unfinished (a ∷ q) = ltb (length (a ∷ q)) (lead_size a)

abbrev pub pending_after : Option ℕ → Bytes → Bytes
pending_after (some c) q = []
pending_after none q = q

abbrev pub emit : Option ℕ → Bool → Option Text → Option Text
emit (some c) more rest = Option.map (λ cs. c ∷ cs) rest
emit none more rest = if more then rest else none

-- Decoding with the bytes of an unfinished code point in hand. none: UnicodeDecodeError
unfoldable pub decode_from : Bytes → Bytes → Option Text
decode_from [] [] = some []
decode_from (a ∷ p) [] = none
decode_from p (b ∷ bs) =
    let q = p ++ b ∷ [] in
    let rest = decode_from (pending_after (char_of q) q) bs in emit (char_of q) (unfinished q) rest

abbrev pub decode : Bytes → Option Text
decode bs = decode_from [] bs

-- The digit of six bits in the base64 alphabet.
unfoldable pub b64_digit : ℕ → ℕ
b64_digit n =
    if ltb n 26
    then 65 + n
    else if ltb n 52
    then 71 + n
    else if ltb n 62
    then n - 4
    else if n == 62
    then 43
    else 47

unfoldable pub standard_b64encode : Bytes → Text
standard_b64encode [] = []
standard_b64encode (a ∷ []) = b64_digit (a / 4) ∷ b64_digit (a % 4 * 16) ∷ 61 ∷ 61 ∷ []
standard_b64encode (a ∷ b ∷ []) =
    b64_digit (a / 4) ∷ b64_digit (a % 4 * 16 + b / 16) ∷ b64_digit (b % 16 * 4) ∷ 61 ∷ []
standard_b64encode (a ∷ b ∷ c ∷ bs) =
    b64_digit (a / 4)
    ∷ b64_digit (a % 4 * 16 + b / 16)
    ∷ b64_digit (b % 16 * 4 + c / 64)
    ∷ b64_digit (c % 64)
    ∷ standard_b64encode bs
