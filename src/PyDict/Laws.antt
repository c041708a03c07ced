-- ===== src/PyDict/Laws.antt =====
-- Lookups behind assignments.
use mathlib.Core.Path.{subst}
use carqna_agent.Common.{
  ◌≡◌, ◌⊎◌, refl, sym, ◌∙◌, true, false, some, [], ◌∷◌, Bool-cases, inl, inr, if◌then◌else◌,
}
use carqna_agent.PyText.{Text, text_eq}
use carqna_agent.PyText.Laws.{text_eq_refl, text_eq_iff}
use carqna_agent.PyDict.{Dict, dict_set, dict_get}

-- A lookup behind an assignment.
pub dict_get-dict_set :
    {V : Type 0} (p k : Text) (v : V) (d : Dict V)
    → dict_get p (dict_set k v d) ≡ (if text_eq k p then some v else dict_get p d)
unfolding dict_get dict_set
dict_get-dict_set p k v [] = refl
dict_get-dict_set p k v ((q, w) ∷ d) = elim (Bool-cases (text_eq q k)) [
  | inl e ↦
      rw (e, (text_eq_iff q k).0 e)
        (elim (Bool-cases (text_eq k p)) [ inl f ↦ rw f refl | inr f ↦ rw f refl ])
  | inr e ↦ rw e (elim (Bool-cases (text_eq q p)) [
    | inl f ↦ rw f (elim (Bool-cases (text_eq k p)) [
      | inl g ↦
          let same = (text_eq_iff q k).1 ((text_eq_iff q p).0 f ∙ sym ((text_eq_iff k p).0 g)) in cc
      | inr g ↦ rw g refl
    ])
    | inr f ↦ rw f (dict_get-dict_set p k v d)
  ])
]

-- What holds of the entries and of the value assigned holds of the entries after the assignment.
module _ {V : Type 0} (Q : Text → V → Type 0) where
  abbrev pub Holds : Dict V → Type 0
  Holds d = (p : Text) (v : V) → dict_get p d ≡ some v → Q p v

  some_value : {x y : V} → some x ≡ some y → x ≡ y
  some_value s = cc

  pub Holds-dict_set : (k : Text) (v : V) (d : Dict V) → Q k v → Holds d → Holds (dict_set k v d)
  Holds-dict_set k v d q h p w e =
      go (Bool-cases (text_eq k p)) (sym (dict_get-dict_set p k v d) ∙ e)
    where
      go :
          (text_eq k p ≡ true) ⊎ (text_eq k p ≡ false)
          → (if text_eq k p then some v else dict_get p d) ≡ some w
          → Q p w
      go (inl a) b =
          subst (λ x. Q x w) ((text_eq_iff k p).0 a) (subst (Q k) (some_value (rw a at b)) q)
      go (inr a) b = h p w (rw a at b)

-- An entry stays, with some value.
abbrev pub Has : {V : Type 0} → Text → Dict V → Type 0
Has {V} p d = (v : V) × (dict_get p d ≡ some v)

pub Has-dict_set : {V : Type 0} (p k : Text) (v : V) (d : Dict V) → Has p d → Has p (dict_set k v d)
Has-dict_set p k v d (w, e) = elim (Bool-cases (text_eq k p)) [
  | inl a ↦ (v, dict_get-dict_set p k v d ∙ rw a refl)
  | inr a ↦ (w, dict_get-dict_set p k v d ∙ rw a e)
]

pub Has-dict_set_self : {V : Type 0} (k : Text) (v : V) (d : Dict V) → Has k (dict_set k v d)
Has-dict_set_self k v d = (v, dict_get-dict_set k k v d ∙ rw (text_eq_refl k) refl)
