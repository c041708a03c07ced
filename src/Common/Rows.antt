-- ===== src/Common/Rows.antt =====
-- Lists as tables: selection by a Boolean test, and keys that no two rows share.
use mathlib.Core.Path.{◌≡◌, refl, sym, ◌∙◌}
use mathlib.Core.Logic.{◌≢◌, inl, inr}
use mathlib.Core.Bool.{Bool, true, false, ◌||◌, ◌&&◌}
use mathlib.Core.List.{List, [], ◌∷◌, map}
use native.Mathlib.Omega.{arith}
use carqna_agent.Common.Tests.{if◌then◌else◌, Bool-cases}
use carqna_agent.Common.Lists.{All}

module _ {ℓ} {A : Type ℓ} where
  abbrev pub filter : (A → Bool) → List A → List A
  filter p [] = []
  filter p (x ∷ xs) = if p x then x ∷ filter p xs else filter p xs

  abbrev pub any : (A → Bool) → List A → Bool
  any p [] = false
  any p (x ∷ xs) = p x || any p xs

  pub any-false : (p : A → Bool) (xs : List A) → any p xs ≡ false → All (λ x. p x ≡ false) xs
  any-false p [] h = tt
  any-false p (x ∷ xs) h = ground (arith, any-false p xs)

  pub filter_none : (p : A → Bool) (xs : List A) → All (λ x. p x ≡ false) xs → filter p xs ≡ []
  filter_none p [] h = refl
  filter_none p (x ∷ xs) (h, hs) = rw h (filter_none p xs hs)

  pub All-filter {κ} :
      (P : A → Type κ) (p : A → Bool) (xs : List A) → All P xs → All P (filter p xs)
  All-filter P p [] h = tt
  All-filter P p (x ∷ xs) (h, hs) = elim (Bool-cases (p x)) [
    | inl e ↦ rw e (h, All-filter P p xs hs)
    | inr e ↦ rw e (All-filter P p xs hs)
  ]

  pub filter_passes : (p : A → Bool) (xs : List A) → All (λ x. p x ≡ true) (filter p xs)
  filter_passes p [] = tt
  filter_passes p (x ∷ xs) = elim (Bool-cases (p x)) [
    | inl e ↦ rw e (e, filter_passes p xs)
    | inr e ↦ rw e (filter_passes p xs)
  ]

  pub every_one {κ μ} :
      (P : A → Type κ) (Q : A → Type μ) (xs : List A) → All P xs → ((x : A) → P x → Q x) → All Q xs
  every_one P Q [] h f = tt
  every_one P Q (x ∷ xs) (h, hs) f = (f x h, every_one P Q xs hs f)

  -- One change of every row that keeps a property.
  pub All-map {κ} :
      (P : A → Type κ) (g : A → A) (xs : List A)
      → ((x : A) → P x → P (g x))
      → All P xs
      → All P (map g xs)
  All-map P g [] k h = tt
  All-map P g (x ∷ xs) k (h, hs) = (k x h, All-map P g xs k hs)

module _ {ℓ κ} {A : Type ℓ} {K : Type κ} (key : A → K) where
  -- No row of the table has this key.
  abbrev pub Absent : K → List A → Type κ
  Absent k xs = All (λ x. key x ≢ k) xs

  -- No two rows share a key.
  abbrev pub Distinct : List A → Type κ
  Distinct [] = Unit
  Distinct (x ∷ xs) = All (λ y. key y ≢ key x) xs × Distinct xs

  pub Distinct-map :
      (g : A → A) (xs : List A) → ((x : A) → key (g x) ≡ key x) → Distinct xs → Distinct (map g xs)
  Distinct-map g [] k h = tt
  Distinct-map g (x ∷ xs) k (h, hs) = (
    rw (k x) (All-map (λ y. key y ≢ key x) g xs (λ y n e. n (sym (k y) ∙ e)) h),
    Distinct-map g xs k hs,
  )

module _ {ℓ} {A : Type ℓ} where
  pub any-map :
      (p : A → Bool) (g : A → A) (xs : List A)
      → ((x : A) → p (g x) ≡ p x)
      → any p (map g xs) ≡ any p xs
  any-map p g [] k = refl
  any-map p g (x ∷ xs) k = rw (k x, any-map p g xs k)

  pub filter-map_same :
      (p : A → Bool) (g : A → A) (xs : List A)
      → ((x : A) → p (g x) ≡ p x)
      → filter p (map g xs) ≡ map g (filter p xs)
  filter-map_same p g [] k = refl
  filter-map_same p g (x ∷ xs) k = elim (Bool-cases (p x)) [
    | inl e ↦ rw (k x, e, filter-map_same p g xs k)
    | inr e ↦ rw (k x, e, filter-map_same p g xs k)
  ]

module _ {ℓ} {A : Type ℓ} (a b : A → Bool) where
  pub filter-and : (xs : List A) → filter (λ x. a x && b x) xs ≡ filter a (filter b xs)
  filter-and [] = refl
  filter-and (x ∷ xs) = elim (Bool-cases (b x)) [
    | inl e ↦ elim (Bool-cases (a x)) [
      | inl d ↦ rw (e, d, filter-and xs)
      | inr d ↦ rw (e, d, filter-and xs)
    ]
    | inr e ↦ elim (Bool-cases (a x)) [
      | inl d ↦ rw (e, d, filter-and xs)
      | inr d ↦ rw (e, d, filter-and xs)
    ]
  ]

  pub any-and : (xs : List A) → any (λ x. a x && b x) xs ≡ any a (filter b xs)
  any-and [] = refl
  any-and (x ∷ xs) = ground (arith, any-and xs)

module _ {ℓ} {A : Type ℓ} where
  pub filter_same :
      (p q : A → Bool) (xs : List A) → All (λ x. p x ≡ q x) xs → filter p xs ≡ filter q xs
  filter_same p q [] h = refl
  filter_same p q (x ∷ xs) (e, h) = rw (e, filter_same p q xs h)

  pub map_same : (g : A → A) (xs : List A) → All (λ x. g x ≡ x) xs → map g xs ≡ xs
  map_same g [] h = refl
  map_same g (x ∷ xs) (e, h) = rw (e, map_same g xs h)

  pub any-true_self :
      (p : A → A → Bool)
      → ((x : A) → p x x ≡ true)
      → (xs : List A) → All (λ x. any (p x) xs ≡ true) xs
  any-true_self p r [] = tt
  any-true_self p r (x ∷ xs) =
      (rw (r x) refl, every_one _ _ xs (any-true_self p r xs) (λ y h. rw h (or_true (p y x))))
    where
      or_true : (b : Bool) → (b || true) ≡ true
      or_true true = refl
      or_true false = refl
