-- ===== src/PyText/Laws.antt =====
-- Laws of the text methods.
use carqna_agent.Common.{
  ℕ, ◌≡◌, ◌≢◌, reverse, refl, ◌↔◌, Bool, true, false, [], ◌∷◌, ◌++◌, arith, Bool-cases, inl, inr,
}
use mathlib.Core.Path.{subst}
use mathlib.Core.List.{reverse-cons, reverse-append}
use carqna_agent.PyText.{Text, text_eq, starts_with, lstrip, rstrip, strip}

pub text_eq_refl : (s : Text) → text_eq s s ≡ true
unfolding text_eq
text_eq_refl [] = refl
text_eq_refl (c ∷ s) = ground (arith, text_eq_refl s)

text_eq_sound : (s t : Text) → text_eq s t ≡ true → s ≡ t
unfolding text_eq
text_eq_sound [] [] h = refl
text_eq_sound [] (d ∷ t) h = cc
text_eq_sound (c ∷ s) [] h = cc
text_eq_sound (c ∷ s) (d ∷ t) h = ground (arith, text_eq_sound s t)

pub text_eq_iff : (s t : Text) → (text_eq s t ≡ true) ↔ (s ≡ t)
text_eq_iff s t = (text_eq_sound s t, λ e. rw e (text_eq_refl t))

pub starts_with-append : (s t : Text) → starts_with (s ++ t) s ≡ true
unfolding starts_with
starts_with-append [] t = refl
starts_with-append (c ∷ s) t = ground (arith, starts_with-append s t)

-- A text that starts with another is that text and a rest.
pub starts_with_split : (s t : Text) → starts_with s t ≡ true → (r : Text) × (s ≡ t ++ r)
unfolding starts_with
starts_with_split s [] h = (s, refl)
starts_with_split [] (d ∷ t) h = cc
starts_with_split (c ∷ s) (d ∷ t) h =
    let (r, e) = starts_with_split s t (ground arith) in (r, ground (arith, e))

-- The first character, if there is one, fails the test.
abbrev pub HeadNot : (ℕ → Bool) → Text → Type 0
HeadNot p [] = Unit
HeadNot p (c ∷ s) = p c ≡ false

pub lstrip-HeadNot : (p : ℕ → Bool) (s : Text) → HeadNot p (lstrip p s)
unfolding lstrip
lstrip-HeadNot p [] = tt
lstrip-HeadNot p (c ∷ s) = elim (Bool-cases (p c)) [
  | inl e ↦ rw e (lstrip-HeadNot p s)
  | inr e ↦ rw e e
]

pub lstrip_of_HeadNot : (p : ℕ → Bool) (s : Text) → HeadNot p s → lstrip p s ≡ s
unfolding lstrip
lstrip_of_HeadNot p [] h = refl
lstrip_of_HeadNot p (c ∷ s) h = rw h

pub lstrip_idem : (p : ℕ → Bool) (s : Text) → lstrip p (lstrip p s) ≡ lstrip p s
lstrip_idem p s = lstrip_of_HeadNot p _ (lstrip-HeadNot p s)

pub lstrip-eq_iff : (p : ℕ → Bool) (s : Text) → (lstrip p s ≡ s) ↔ HeadNot p s
lstrip-eq_iff p s = (λ e. subst (HeadNot p) e (lstrip-HeadNot p s), lstrip_of_HeadNot p s)

lstrip-concat :
    (p : ℕ → Bool) (s : Text) (c : ℕ) → p c ≡ false → lstrip p (s ++ c ∷ []) ≡ lstrip p s ++ c ∷ []
unfolding lstrip
lstrip-concat p [] c h = rw h
lstrip-concat p (d ∷ s) c h = ground (arith, lstrip-concat p s c h)

-- A first character that fails the test is kept.
pub rstrip-cons :
    (p : ℕ → Bool) (c : ℕ) (s : Text) → p c ≡ false → (r : Text) × (rstrip p (c ∷ s) ≡ c ∷ r)
unfolding rstrip
rstrip-cons p c s h = (
  reverse (lstrip p (reverse s)),
  rw (reverse-cons, lstrip-concat p (reverse s) c h, reverse-append),
)

rstrip-HeadNot : (p : ℕ → Bool) (s : Text) → HeadNot p s → HeadNot p (rstrip p s)
unfolding rstrip lstrip
rstrip-HeadNot p [] h = tt
rstrip-HeadNot p (c ∷ s) h = let (r, e) = rstrip-cons p c s h in rw e h

pub strip-HeadNot : (p : ℕ → Bool) (s : Text) → HeadNot p (strip p s)
unfolding strip
strip-HeadNot p s = rstrip-HeadNot p _ (lstrip-HeadNot p s)

pub HeadNot-append : (p : ℕ → Bool) (s t : Text) → HeadNot p s → s ≢ [] → HeadNot p (s ++ t)
HeadNot-append p [] t h n = absurd (n refl)
HeadNot-append p (c ∷ s) t h n = h
