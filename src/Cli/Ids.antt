-- ===== src/Cli/Ids.antt =====
-- No two session names share an id, over every sequence of calls.
use carqna_agent.Common.{
  ℕ, ◌+◌, ◌<◌, ◌≡◌, ◌⊎◌, refl, sym, ap, ◌∙◌, true, false, Option, none, some, List, [], ◌∷◌, arith,
  Bool-cases, Option-cases, inl, inr, if◌then◌else◌,
}
use carqna_agent.PyText.{Text, text_eq}
use carqna_agent.PyText.Laws.{text_eq_iff}
use carqna_agent.Cli.{
  Table, create_session_table, find_session, get_or_insert, get_or_create_session,
}
use carqna_agent.Cli.Laws.{
  Call, run, id_of, id_of-get_or_create_session, get_known, id_of_self, id_of-run,
}

-- No name has an id that the counter has not passed, and no two names share one.
abbrev IsBelow : Option Table → Type 0
IsBelow conn =
    (name : Text) (id : ℕ) → id_of name conn ≡ some id → id < (create_session_table conn).next_id

abbrev IsInjective : Option Table → Type 0
IsInjective conn = (a b : Text) (id : ℕ) → id_of a conn ≡ some id → id_of b conn ≡ some id → a ≡ b

abbrev next_of : Option Table → ℕ
next_of conn = (create_session_table conn).next_id

not_below : {a b : Text} {id n : ℕ} → id ≡ n → id < n → a ≡ b
not_below e l = ground arith

module _ (now : ℕ) (name : Text) (conn : Option Table) where
  abbrev after : Option Table
  after = (get_or_create_session now name conn).1

  module _ (id : ℕ) (known : id_of name conn ≡ some id) where
    known_same : (other : Text) → id_of other after ≡ id_of other conn
    known_same other =
        id_of-get_or_create_session now name other conn ∙ elim (Bool-cases (text_eq name other)) [
          | inl s ↦ rw s (
              ap some (get_known now name conn id known)
              ∙ sym known
              ∙ ap (λ n. id_of n conn) ((text_eq_iff name other).0 s))
          | inr s ↦ rw s refl
        ]

    known_next : next_of after ≡ next_of conn
    unfolding get_or_create_session create_session_table
    known_next = ap (λ r. next_of (get_or_insert now name (create_session_table conn) r).1) known

  module _ (fresh : id_of name conn ≡ none) where
    fresh_id : (get_or_create_session now name conn).0 ≡ next_of conn
    unfolding get_or_create_session
    fresh_id = rw fresh refl

    fresh_next : next_of after ≡ next_of conn + 1
    unfolding get_or_create_session create_session_table
    fresh_next = ap (λ r. next_of (get_or_insert now name (create_session_table conn) r).1) fresh

    -- An id behind the call is the new one or an old one.
    fresh_cases :
        (other : Text) (id : ℕ)
        → id_of other after ≡ some id
        → ((name ≡ other) × (id ≡ next_of conn)) ⊎ (id_of other conn ≡ some id)
    fresh_cases other id h =
        go (Bool-cases (text_eq name other))
          (sym (id_of-get_or_create_session now name other conn) ∙ h)
      where
        same_id : {x y : ℕ} → some x ≡ some y → x ≡ y
        same_id e = cc

        go :
            (text_eq name other ≡ true) ⊎ (text_eq name other ≡ false)
            → (if text_eq name other
                then some (get_or_create_session now name conn).0
                else id_of other conn)
              ≡ some id
            → ((name ≡ other) × (id ≡ next_of conn)) ⊎ (id_of other conn ≡ some id)
        go (inl s) k = inl ((text_eq_iff name other).0 s, sym (same_id (rw s at k)) ∙ fresh_id)
        go (inr s) k = inr (rw s at k)

  module _ (below : IsBelow conn) (injective : IsInjective conn) where
    IsBelow-get_or_create_session : IsBelow after
    IsBelow-get_or_create_session n id h = elim (Option-cases (id_of name conn)) [
      | inl e ↦ elim (fresh_cases e n id h) [
        | inl (s, t) ↦ omega (arith, fresh_next e, t)
        | inr k ↦ omega (arith, fresh_next e, below n id k)
      ]
      | inr (i, e) ↦ omega (arith, known_next i e, below n id (sym (known_same i e n) ∙ h))
    ]

    IsInjective-get_or_create_session : IsInjective after
    IsInjective-get_or_create_session a b id h k = elim (Option-cases (id_of name conn)) [
      | inl e ↦ elim (fresh_cases e a id h) [
        | inl (s, t) ↦ elim (fresh_cases e b id k) [
          | inl (s', t') ↦ sym s ∙ s'
          | inr k' ↦ not_below t (below b id k')
        ]
        | inr h' ↦ elim (fresh_cases e b id k) [
          | inl (s', t') ↦ not_below t' (below a id h')
          | inr k' ↦ injective a b id h' k'
        ]
      ]
      | inr (i, e) ↦ injective a b id (sym (known_same i e a) ∙ h) (sym (known_same i e b) ∙ k)
    ]

-- Both hold after some calls.
abbrev pub AreKept : Option Table → Type 0
AreKept conn = IsBelow conn × IsInjective conn

pub AreKept-run :
    (calls : List Call) (conn : Option Table) → AreKept conn → AreKept (run calls conn)
AreKept-run [] conn h = h
AreKept-run ((now, name) ∷ calls) conn (below, injective) = AreKept-run calls _ (
  IsBelow-get_or_create_session now name conn below injective,
  IsInjective-get_or_create_session now name conn below injective,
)

pub AreKept-none : AreKept none
unfolding create_session_table find_session
AreKept-none = (λ name id e. cc, λ a b id e f. cc)

-- In a file that began without the table, two calls that are answered with one id were for one name,
-- whatever calls there were before and in between: conversations of different names are kept apart.
pub get_or_create_session-injective :
    (now later : ℕ) (name other : Text) (before between : List Call)
    → (get_or_create_session now name (run before none)).0
      ≡ (get_or_create_session later other
          (run between (get_or_create_session now name (run before none)).1)).0
    → name ≡ other
get_or_create_session-injective now later name other before between e =
    (AreKept-run ((later, other) ∷ []) third
        (AreKept-run ((now, name) ∷ between) first (AreKept-run before none AreKept-none))).1
      name other (get_or_create_session now name first).0
      (id_of-run name _ ((later, other) ∷ []) third
        (id_of-run name _ between _ (id_of_self now name first)))
      (id_of_self later other third ∙ ap some (sym e))
  where
    first : Option Table
    first = run before none

    third : Option Table
    third = run between (get_or_create_session now name first).1
