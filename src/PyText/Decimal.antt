-- ===== src/PyText/Decimal.antt =====
-- str(n) of a number that is not negative, and its inverse.
use carqna_agent.Common.{
  ℕ, zero, suc, ◌+◌, ◌-◌, ◌*◌, ◌/◌, ◌%◌, ◌<◌, ◌≡◌, sym, ap, ◌∙◌, [], ◌∷◌, ltb, arith, Bool-cases,
  inl, inr, if◌then◌else◌,
}
use carqna_agent.PyText.{Text}

-- The digits of `n` in front of those in `acc`. A number has at most as many digits as its successor
-- is large, so that is fuel enough.
unfoldable pub show_digits : ℕ → ℕ → Text → Text
show_digits zero n acc = acc
show_digits (suc fuel) n acc =
    let rest = show_digits fuel (n / 10) ((48 + n % 10) ∷ acc) in
    if ltb n 10 then (48 + n % 10) ∷ acc else rest

unfoldable pub show_nat : ℕ → Text
unfolding show_digits
show_nat n = show_digits (n + 1) n []

-- The number that digits spell behind one that has been read.
value_from : ℕ → Text → ℕ
value_from v [] = v
value_from v (c ∷ cs) = value_from (v * 10 + (c - 48)) cs

value_from-show_digits :
    (fuel n : ℕ) (acc : Text) → n < fuel → value_from 0 (show_digits fuel n acc) ≡ value_from n acc
unfolding show_digits value_from
value_from-show_digits zero n acc h = absurd (omega arith)
value_from-show_digits (suc fuel) n acc h = elim (Bool-cases (ltb n 10)) [
  | inl small ↦ rw small (ap (λ v. value_from v acc) (ground arith))
  | inr large ↦ rw large (
      value_from-show_digits fuel (n / 10) ((48 + n % 10) ∷ acc) (ground arith)
      ∙ ap (λ v. value_from v acc) (omega arith))
]

-- Different numbers are written differently.
pub show_nat-injective : (m n : ℕ) → show_nat m ≡ show_nat n → m ≡ n
unfolding show_nat value_from
show_nat-injective m n e =
    sym (value_from-show_digits (m + 1) m [] (omega arith))
    ∙ ap (value_from 0) e
    ∙ value_from-show_digits (n + 1) n [] (omega arith)
