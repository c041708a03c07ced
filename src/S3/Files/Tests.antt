-- ===== src/S3/Files/Tests.antt =====
-- Runs of the file operations on the sample store.
use carqna_agent.Common.{pos, ◌≡◌, ◌≢◌, refl, none, some, [], ◌∷◌}
use carqna_agent.PyText.{Text, codes, text_eq, text_mem, starts_with, lstrip}
use carqna_agent.PyText.Utf8.{
  Bytes, encode, decode, utf8_char, decode_from, char_of, unfinished, lead_size, standard_b64encode,
  b64_digit,
}
use carqna_agent.PyText.Utf8.Laws.{decode-encode}
use carqna_agent.Errors.{raised, value_error}
use carqna_agent.S3.Keys.{key_for, is_slash}
use carqna_agent.S3.Client.{failed}
use carqna_agent.S3.Files.{read, write, normalize}
use carqna_agent.S3.Files.Laws.{read-write_ne}
use carqna_agent.S3.Files.Sample.{
  Store, client_of, client_of-IsStore, plain_utils, docs, nothing, put_in,
}

-- "aé€" and a code point beyond the first plane.
abbrev mixed : Text
mixed = 97 ∷ 233 ∷ 8364 ∷ 128512 ∷ []

abbrev mixed_bytes : Bytes
mixed_bytes = 97 ∷ 195 ∷ 169 ∷ 226 ∷ 130 ∷ 172 ∷ 240 ∷ 159 ∷ 152 ∷ 128 ∷ []

encode-mixed : encode mixed ≡ some mixed_bytes
unfolding encode utf8_char
encode-mixed = refl

mixed_is_read_back : decode mixed_bytes ≡ some mixed
mixed_is_read_back = decode-encode mixed mixed_bytes encode-mixed

overlong : decode (192 ∷ 128 ∷ []) ≡ none
unfolding decode_from char_of unfinished lead_size utf8_char text_eq
overlong = refl

surrogate : decode (237 ∷ 160 ∷ 128 ∷ []) ≡ none
unfolding decode_from char_of unfinished lead_size utf8_char text_eq
surrogate = refl

base64_of_man : standard_b64encode (codes "Man!") ≡ codes "TWFuIQ=="
unfolding standard_b64encode b64_digit
base64_of_man = refl

newlines : normalize (13 ∷ 13 ∷ 10 ∷ 97 ∷ 13 ∷ []) ≡ 10 ∷ 10 ∷ 97 ∷ 10 ∷ []
unfolding normalize starts_with
newlines = refl

abbrev memo : Text
memo = codes "/memo.md"

abbrev other_memo : Text
other_memo = codes "/other.md"

abbrev noted : Store
noted = put_in (codes "insurance") (codes "docs/memo.md") mixed_bytes nothing

lone_surrogate :
    (write (client_of []) plain_utils docs memo (55357 ∷ []) nothing).0
    ≡ raised (value_error (codes "surrogates not allowed"))
unfolding write encode utf8_char
lone_surrogate = refl

missing :
    read (client_of []) plain_utils docs memo (pos 0) (pos 2000) nothing
    ≡ failed (codes "File '/memo.md' not found")
unfolding read key_for lstrip text_eq text_mem
missing = refl

memos_differ : lstrip is_slash memo ≢ lstrip is_slash other_memo
unfolding lstrip
memos_differ e = cc

read-write_ne_example :
    read
      (client_of [])
      plain_utils
      docs
      other_memo
      (pos 0)
      (pos 2000)
      (write (client_of []) plain_utils docs memo mixed noted).1
    ≡ read (client_of []) plain_utils docs other_memo (pos 0) (pos 2000) noted
read-write_ne_example =
    read-write_ne (client_of []) plain_utils docs memo other_memo mixed (pos 0) (pos 2000) noted
      (client_of-IsStore []) memos_differ

abbrev edited : Store
edited = put_in (codes "insurance") (codes "docs/memo.md") (98 ∷ []) noted
