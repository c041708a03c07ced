-- ===== src/Auth/Bearer/Laws.antt =====
-- Which headers give a token, and which token.
use carqna_agent.Common.{
  ℕ, ◌≡◌, ◌≢◌, refl, ap, ◌⊎◌, Bool, true, false, Option, none, some, [], ◌∷◌, ◌++◌, arith, ◌==◌,
  Bool-cases, inl, inr, not, ◌||◌, nonempty,
}
use carqna_agent.PyText.{Text, codes, starts_with, strip, lower, lower_char, is_space}
use carqna_agent.PyText.Laws.{starts_with_split}
use carqna_agent.Errors.{returned, raised, http_exception}
use carqna_agent.Auth.Bearer.{after_space, missing_header, get_bearer_token}

-- A header that announces a bearer token: the scheme in any case, one space, the rest.
pub record IsBearer (auth_header rest : Text) : Type 0 where
  pub scheme : Text
  pub is_bearer : lower scheme ≡ codes "bearer"
  pub parts : auth_header ≡ scheme ++ 32 ∷ rest

-- No character but a space is mapped to a space, and a space to nothing else.
space_of_lower : (c : ℕ) → lower_char c ≡ 32 → c ≡ 32
space_of_lower c h = ground arith

not_space_of_lower : (c : ℕ) → lower_char c ≢ 32 → (c == 32) ≡ false
not_space_of_lower c h = ground arith

cons_parts : {c d : ℕ} {s t : Text} → ◌≡◌ {A = Text} (c ∷ s) (d ∷ t) → (c ≡ d) × (s ≡ t)
cons_parts e = (cc, cc)

-- A text whose lower-case form begins with a word without spaces and a space is split at that space.
split_lower :
    (h w r : Text)
    → lower h ≡ w ++ 32 ∷ r
    → (scheme : Text) × (rest : Text) × (lower scheme ≡ w) × (h ≡ scheme ++ 32 ∷ rest)
unfolding lower
split_lower [] [] r e = absurd (cc)
split_lower [] (d ∷ w) r e = absurd (cc)
split_lower (c ∷ h) [] r e = ([], h, refl, rw (space_of_lower c (cons_parts e).0) refl)
split_lower (c ∷ h) (d ∷ w) r e =
    let (here, later) = cons_parts e in
    let (scheme, rest, same, parts) = split_lower h w r later in
    (c ∷ scheme, rest, cc (here, same), cc (parts))

-- The words in which no space occurs.
abbrev NoSpace : Text → Type 0
NoSpace [] = Unit
NoSpace (c ∷ s) = ((c == 32) ≡ false) × NoSpace s

NoSpace-lower : (s w : Text) → lower s ≡ w → NoSpace w → NoSpace s
unfolding lower
NoSpace-lower [] w e h = tt
NoSpace-lower (c ∷ s) [] e h = absurd (cc)
NoSpace-lower (c ∷ s) (d ∷ w) e (n, h) =
    let (here, later) = cons_parts e in
    (not_space_of_lower c (λ q. ground arith), NoSpace-lower s w later h)

after_space-append : (s rest : Text) → NoSpace s → after_space (s ++ 32 ∷ rest) ≡ returned rest
unfolding after_space
after_space-append [] rest h = refl
after_space-append (c ∷ s) rest (n, h) = rw n (after_space-append s rest h)

-- The tests of the code on a header, as one.
is_refused : Text → Bool
is_refused h = not (nonempty h) || not (starts_with (lower h) (codes "bearer "))

lower-append : (s t : Text) → lower (s ++ t) ≡ lower s ++ lower t
unfolding lower
lower-append [] t = refl
lower-append (c ∷ s) t = ap (λ r. lower_char c ∷ r) (lower-append s t)

lower-IsBearer : (h rest : Text) → IsBearer h rest → lower h ≡ codes "bearer" ++ 32 ∷ lower rest
lower-IsBearer h rest b = rw (b.parts, lower-append b.scheme (32 ∷ rest), b.is_bearer) (space rest)
  where
    space : (r : Text) → codes "bearer" ++ lower (32 ∷ r) ≡ codes "bearer" ++ 32 ∷ lower r
    space r = unfold lower in refl

accepted_of_lower : (h r : Text) → lower h ≡ codes "bearer" ++ 32 ∷ r → is_refused h ≡ false
unfolding is_refused
accepted_of_lower [] r e = unfold lower in cc
accepted_of_lower (c ∷ h) r e = rw e (unfold starts_with in refl)

-- A header with a bearer token is accepted, and the token is the trimmed rest.
pub get_bearer_token-IsBearer :
    (h rest : Text) → IsBearer h rest → get_bearer_token (some h) ≡ returned (strip is_space rest)
unfolding get_bearer_token is_refused
get_bearer_token-IsBearer h rest b =
    let accepted : is_refused h ≡ false =
      accepted_of_lower h (lower rest) (lower-IsBearer h rest b) in
    let found : after_space h ≡ returned rest = rw (b.parts) (
      after_space-append b.scheme rest (
        NoSpace-lower b.scheme (codes "bearer") b.is_bearer
          (refl, (refl, (refl, (refl, (refl, (refl, tt)))))))) in
    rw (accepted, found) refl

refused_answer :
    (h : Text)
    → is_refused h ≡ true
    → get_bearer_token (some h) ≡ raised (http_exception 401 missing_header)
unfolding is_refused get_bearer_token
refused_answer h e = rw e refl

starts_of_accepted :
    (h : Text) → is_refused h ≡ false → starts_with (lower h) (codes "bearer ") ≡ true
unfolding is_refused
starts_of_accepted h e = ground arith

-- A header either announces a bearer token, and then `get_bearer_token` returns what follows,
-- stripped of white space at both ends; or it does not, and then it raises the 401 of a missing
-- header. No other exception comes out of the parsing.
pub get_bearer_token_cases :
    (header : Option Text)
    → ((h : Text) × (rest : Text) × (header ≡ some h)
        × IsBearer h rest
        × (get_bearer_token header ≡ returned (strip is_space rest)))
      ⊎ (((h rest : Text) → header ≡ some h → ¬ IsBearer h rest)
          × (get_bearer_token header ≡ raised (http_exception 401 missing_header)))
get_bearer_token_cases none = inr (λ h rest e. absurd (cc), unfold get_bearer_token in refl)
get_bearer_token_cases (some h) = elim (Bool-cases (is_refused h)) [
  | inl refused ↦ inr (
    λ g rest e b. cc (refused, accepted_of_lower g (lower rest) (lower-IsBearer g rest b), e),
    refused_answer h refused,
  )
  | inr accepted ↦
      let (r, e) = starts_with_split (lower h) (codes "bearer ") (starts_of_accepted h accepted) in
      let (scheme, rest, same, parts) = split_lower h (codes "bearer") r e in
      let b : IsBearer h rest = record { scheme = scheme; is_bearer = same; parts = parts } in
      inl (h, rest, refl, b, get_bearer_token-IsBearer h rest b)
]
