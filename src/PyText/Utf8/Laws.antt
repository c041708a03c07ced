-- ===== src/PyText/Utf8/Laws.antt =====
-- UTF-8 encoding is read back.
use mathlib.Core.Option
use mathlib.Core.Path.{subst}
use carqna_agent.Common.{
  ℕ, ◌+◌, ◌-◌, ◌*◌, ◌/◌, ◌≡◌, refl, sym, ap, ◌∙◌, true, false, ◌&&◌, Option, none, some, [], ◌∷◌,
  ◌++◌, ltb, leb, arith, Bool-cases, inl, inr,
}
use carqna_agent.PyText.{Text}
use carqna_agent.PyText.Laws.{text_eq_refl}
use carqna_agent.PyText.Utf8.{
  Bytes, trail, utf8_char, encode, append_to, lead_size, char_of, unfinished, decode_from, decode,
  check,
}

-- One code point, read with the rest of the bytes behind it.
abbrev Reads : ℕ → Bytes → Type 0
Reads c bs =
    (rest : Bytes) → decode_from [] (bs ++ rest) ≡ Option.map (λ cs. c ∷ cs) (decode_from [] rest)

two_back : (c : ℕ) → (192 + c / 64 - 192) * 64 + (trail c - 128) ≡ c
two_back c = omega arith

three_back :
    (c : ℕ) → (224 + c / 4096 - 224) * 4096 + (trail (c / 64) - 128) * 64 + (trail c - 128) ≡ c
three_back c = omega arith

four_back :
    (c : ℕ)
    → (240 + c / 262144 - 240) * 262144
        + (trail (c / 4096) - 128) * 4096
        + (trail (c / 64) - 128) * 64
        + (trail c - 128)
      ≡ c
four_back c = omega arith

lead_two : (c : ℕ) → ltb c 128 ≡ false → ltb c 2048 ≡ true → lead_size (192 + c / 64) ≡ 2
unfolding lead_size
lead_two c a h = ground arith

lead_three : (c : ℕ) → ltb c 2048 ≡ false → ltb c 65536 ≡ true → lead_size (224 + c / 4096) ≡ 3
unfolding lead_size
lead_three c a h = ground arith

lead_four : (c : ℕ) → ltb c 65536 ≡ false → ltb c 1114112 ≡ true → lead_size (240 + c / 262144) ≡ 4
unfolding lead_size
lead_four c a h = ground arith

-- The ranges of `utf8_char`.
one : (c : ℕ) → ltb c 128 ≡ true → utf8_char c ≡ some (c ∷ [])
unfolding utf8_char
one c a = rw a refl

two :
    (c : ℕ)
    → ltb c 128 ≡ false
    → ltb c 2048 ≡ true
    → utf8_char c ≡ some ((192 + c / 64) ∷ trail c ∷ [])
unfolding utf8_char
two c a b = rw (a, b) refl

module _ (c : ℕ) (a : ltb c 128 ≡ false) (b : ltb c 2048 ≡ false) where
  absurd_surrogate :
      {bs : Bytes} → (leb 55296 c && ltb c 57344) ≡ true → utf8_char c ≡ some bs → Reads c bs
  unfolding utf8_char
  absurd_surrogate d h = cc

  module _ (d : (leb 55296 c && ltb c 57344) ≡ false) where
    three :
        ltb c 65536 ≡ true → utf8_char c ≡ some ((224 + c / 4096) ∷ trail (c / 64) ∷ trail c ∷ [])
    unfolding utf8_char
    three f = rw (a, b, d, f) refl

    module _ (f : ltb c 65536 ≡ false) where
      four :
          ltb c 1114112 ≡ true
          → utf8_char c
            ≡ some ((240 + c / 262144) ∷ trail (c / 4096) ∷ trail (c / 64) ∷ trail c ∷ [])
      unfolding utf8_char
      four g = rw (a, b, d, f, g) refl

      too_large : {bs : Bytes} → ltb c 1114112 ≡ false → utf8_char c ≡ some bs → Reads c bs
      unfolding utf8_char
      too_large g h = cc

-- A byte sequence that is the encoding of `c` is what `c` is spelt as.
check-utf8_char : (c : ℕ) (q : Bytes) → utf8_char c ≡ some q → check c q ≡ some c
check-utf8_char c q e = rw (e, text_eq_refl q) refl

-- The first of some bytes that announces more.
one_step :
    (b : ℕ) (p bs : Bytes)
    → char_of (p ++ b ∷ []) ≡ none
    → unfinished (p ++ b ∷ []) ≡ true
    → decode_from p (b ∷ bs) ≡ decode_from (p ++ b ∷ []) bs
unfolding decode_from
one_step b [] bs h k = rw (h, k) refl
one_step b (x ∷ p) bs h k = rw (h, k) refl

last_step :
    (c b : ℕ) (p bs : Bytes)
    → char_of (p ++ b ∷ []) ≡ some c
    → decode_from p (b ∷ bs) ≡ Option.map (λ cs. c ∷ cs) (decode_from [] bs)
unfolding decode_from
last_step c b [] bs h = rw h refl
last_step c b (x ∷ p) bs h = rw h refl

Reads-one : (c : ℕ) → ltb c 128 ≡ true → utf8_char c ≡ some (c ∷ []) → Reads c (c ∷ [])
unfolding char_of lead_size
Reads-one c h e rest = last_step c c [] rest (rw (h, check-utf8_char c (c ∷ []) e) refl)

Reads-two :
    (c a b : ℕ)
    → lead_size a ≡ 2
    → (a - 192) * 64 + (b - 128) ≡ c
    → utf8_char c ≡ some (a ∷ b ∷ [])
    → Reads c (a ∷ b ∷ [])
unfolding char_of unfinished
Reads-two c a b l v e rest =
    one_step a [] _ (rw l refl) (rw l refl)
    ∙ last_step c b (a ∷ []) rest (rw (l, v) (check-utf8_char c (a ∷ b ∷ []) e))

Reads-three :
    (c x y z : ℕ)
    → lead_size x ≡ 3
    → (x - 224) * 4096 + (y - 128) * 64 + (z - 128) ≡ c
    → utf8_char c ≡ some (x ∷ y ∷ z ∷ [])
    → Reads c (x ∷ y ∷ z ∷ [])
unfolding char_of unfinished
Reads-three c x y z l v e rest =
    one_step x [] _ (rw l refl) (rw l refl)
    ∙ one_step y (x ∷ []) _ (rw l refl) (rw l refl)
    ∙ last_step c z (x ∷ y ∷ []) rest (rw (l, v) (check-utf8_char c (x ∷ y ∷ z ∷ []) e))

Reads-four :
    (c x y z t : ℕ)
    → lead_size x ≡ 4
    → (x - 240) * 262144 + (y - 128) * 4096 + (z - 128) * 64 + (t - 128) ≡ c
    → utf8_char c ≡ some (x ∷ y ∷ z ∷ t ∷ [])
    → Reads c (x ∷ y ∷ z ∷ t ∷ [])
unfolding char_of unfinished
Reads-four c x y z t l v e rest =
    one_step x [] _ (rw l refl) (rw l refl)
    ∙ one_step y (x ∷ []) _ (rw l refl) (rw l refl)
    ∙ one_step z (x ∷ y ∷ []) _ (rw l refl) (rw l refl)
    ∙ last_step c t (x ∷ y ∷ z ∷ []) rest (rw (l, v) (check-utf8_char c (x ∷ y ∷ z ∷ t ∷ []) e))

some_inj : {s t : Bytes} → some s ≡ some t → s ≡ t
some_inj e = cc

Reads-same :
    (c : ℕ) (bs q : Bytes) → utf8_char c ≡ some bs → utf8_char c ≡ some q → Reads c q → Reads c bs
Reads-same c bs q h e r = subst (Reads c) (some_inj (sym e ∙ h)) r

Reads-utf8_char : (c : ℕ) (bs : Bytes) → utf8_char c ≡ some bs → Reads c bs
Reads-utf8_char c bs h = elim (Bool-cases (ltb c 128)) [
  | inl a ↦ Reads-same c bs _ h (one c a) (Reads-one c a (one c a))
  | inr a ↦ elim (Bool-cases (ltb c 2048)) [
    | inl b ↦
        Reads-same c bs _ h (two c a b) (Reads-two c _ _ (lead_two c a b) (two_back c) (two c a b))
    | inr b ↦ elim (Bool-cases (leb 55296 c && ltb c 57344)) [
      | inl d ↦ absurd_surrogate c a b d h
      | inr d ↦ elim (Bool-cases (ltb c 65536)) [
        | inl f ↦
            Reads-same c bs _ h (three c a b d f)
              (Reads-three c _ _ _ (lead_three c b f) (three_back c) (three c a b d f))
        | inr f ↦ elim (Bool-cases (ltb c 1114112)) [
          | inl g ↦
              Reads-same c bs _ h (four c a b d f g)
                (Reads-four c _ _ _ _ (lead_four c f g) (four_back c) (four c a b d f g))
          | inr g ↦ too_large c a b d f g h
        ]
      ]
    ]
  ]
]

read_back :
    (c : ℕ) (s bs : Bytes) (r q : Option Bytes)
    → ((u : Bytes) → q ≡ some u → decode u ≡ some s)
    → ((u : Bytes) → r ≡ some u → Reads c u)
    → append_to r q ≡ some bs
    → decode bs ≡ some (c ∷ s)
read_back c s bs none q k l h = cc
read_back c s bs (some u) none k l h = cc
read_back c s bs (some u) (some t) k l h =
    subst (λ x. decode x ≡ some (c ∷ s)) (some_inj h)
      (l u refl t ∙ ap (Option.map (λ cs. c ∷ cs)) (k t refl))

pub decode-encode : (s : Text) (bs : Bytes) → encode s ≡ some bs → decode bs ≡ some s
unfolding encode decode_from
decode-encode [] bs h = subst (λ x. decode x ≡ some []) (some_inj h) refl
decode-encode (c ∷ s) bs h =
    read_back c s bs (utf8_char c) (encode s) (decode-encode s) (Reads-utf8_char c) h
