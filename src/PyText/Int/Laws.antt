-- ===== src/PyText/Int/Laws.antt =====
-- The characters of a text that `int` accepts.
use mathlib.Core.Path.{subst}
use mathlib.Core.List.{reverse, reverse_aux, reverse-reverse}
use carqna_agent.Common.{
  ℕ, ◌+◌, ◌*◌, ℤ, ◌≡◌, ◌≢◌, refl, ap, sym, ◌∙◌, Bool, true, false, ◌&&◌, none, some, [], ◌∷◌, arith,
  ◌==◌, if◌then◌else◌, All, Bool-cases, Option-cases, inl, inr,
}
use carqna_agent.PyText.{Text, lstrip, rstrip, strip}
use carqna_agent.PyText.Int.{decimal, digits_from, magnitude, unsigned, int_space, parse_int}

All-reverse_aux : (P : ℕ → Type 0) (xs ys : Text) → All P xs → All P ys → All P (reverse_aux xs ys)
All-reverse_aux P [] ys h k = k
All-reverse_aux P (x ∷ xs) ys (p, h) k = All-reverse_aux P xs (x ∷ ys) h (p, k)

All-lstrip :
    (P : ℕ → Type 0) (p : ℕ → Bool) (s : Text)
    → ((c : ℕ) → p c ≡ true → P c)
    → All P (lstrip p s)
    → All P s
unfolding lstrip
All-lstrip P p [] k h = tt
All-lstrip P p (c ∷ s) k h = elim (Bool-cases (p c)) [
  | inl e ↦ (k c e, All-lstrip P p s k (rw e at h))
  | inr e ↦ rw e at h
]

All-reverse : (P : ℕ → Type 0) (xs : Text) → All P xs → All P (reverse xs)
All-reverse P xs h = All-reverse_aux P xs [] h tt

All-reverse_back : (P : ℕ → Type 0) (xs : Text) → All P (reverse xs) → All P xs
All-reverse_back P xs h = subst (All P) (reverse-reverse xs) (All-reverse P (reverse xs) h)

All-rstrip :
    (P : ℕ → Type 0) (p : ℕ → Bool) (s : Text)
    → ((c : ℕ) → p c ≡ true → P c)
    → All P (rstrip p s)
    → All P s
unfolding rstrip
All-rstrip P p s k h =
    All-reverse_back P s
      (All-lstrip P p (reverse s) k (All-reverse_back P (lstrip p (reverse s)) h))

-- What holds of the removed characters and of what is left holds of the text.
pub All-strip :
    (P : ℕ → Type 0) (p : ℕ → Bool) (s : Text)
    → ((c : ℕ) → p c ≡ true → P c)
    → All P (strip p s)
    → All P s
unfolding strip
All-strip P p s k h = All-lstrip P p s k (All-rstrip P p (lstrip p s) k h)

decimal_colon : decimal 58 ≡ none
unfolding decimal
decimal_colon = refl

not_colon_of_decimal : (c d : ℕ) → decimal c ≡ some d → c ≢ 58
not_colon_of_decimal c d e f = cc (e, decimal_colon, ap decimal f)

not_colon_of_space : (c : ℕ) → int_space c ≡ true → c ≢ 58
not_colon_of_space c e f = let g : int_space 58 ≡ true = rw f at e in cc g

abbrev pub NotColon : ℕ → Type 0
NotColon c = c ≢ 58

digits_from_digit :
    (after : Bool) (n c d : ℕ) (s : Text)
    → decimal c ≡ some d
    → digits_from after n (c ∷ s) ≡ digits_from true (n * 10 + d) s
unfolding digits_from
digits_from_digit true n c d s e = rw (e, digits_from) refl
digits_from_digit false n c d s e = rw (e, digits_from) refl

digits_from_other :
    (after : Bool) (n c : ℕ) (s : Text)
    → decimal c ≡ none
    → digits_from after n (c ∷ s) ≡ (if after && c == 95 then digits_from false n s else none)
unfolding digits_from
digits_from_other true n c s e = rw (e, digits_from) refl
digits_from_other false n c s e = rw (e, digits_from) refl

underscore : (after : Bool) (c : ℕ) → (after && c == 95) ≡ true → c ≢ 58
underscore after c u f = ground arith

digits_from-NotColon :
    (after : Bool) (n : ℕ) (s : Text) (m : ℕ) → digits_from after n s ≡ some m → All NotColon s
digits_from-NotColon after n [] m h = tt
digits_from-NotColon after n (c ∷ s) m h = elim (Option-cases (decimal c)) [
  | inr (d, e) ↦ (
    not_colon_of_decimal c d e,
    digits_from-NotColon true (n * 10 + d) s m (sym (digits_from_digit after n c d s e) ∙ h),
  )
  | inl e ↦ elim (Bool-cases (after && c == 95)) [
    | inl u ↦ (
      underscore after c u,
      digits_from-NotColon false n s m (rw u at (sym (digits_from_other after n c s e) ∙ h)),
    )
    | inr u ↦ absurd (cc (rw u at (sym (digits_from_other after n c s e) ∙ h)))
  ]
]

magnitude-NotColon :
    (negative : Bool) (s : Text) (z : ℤ) → magnitude negative s ≡ some z → All NotColon s
magnitude-NotColon negative s z h = elim (Option-cases (digits_from false 0 s)) [
  | inr (n, e) ↦ digits_from-NotColon false 0 s n e
  | inl e ↦ absurd (ground arith)
]

unsigned-NotColon : (s : Text) (z : ℤ) → unsigned s ≡ some z → All NotColon s
unsigned-NotColon [] z h = tt
unsigned-NotColon (c ∷ s) z h = elim (Bool-cases (c == 45)) [
  | inl e ↦ (λ f. ground arith, magnitude-NotColon true s z (rw e at h))
  | inr e ↦ elim (Bool-cases (c == 43)) [
    | inl g ↦ (λ f. ground arith, magnitude-NotColon false s z (rw (e, g) at h))
    | inr g ↦ magnitude-NotColon false (c ∷ s) z (rw (e, g) at h)
  ]
]

-- No text that `int` accepts holds a colon.
pub parse_int-NotColon : (s : Text) (z : ℤ) → parse_int s ≡ some z → All NotColon s
unfolding parse_int
parse_int-NotColon s z h =
    All-strip NotColon int_space s not_colon_of_space (unsigned-NotColon (strip int_space s) z h)
