-- ===== src/Sessions/Visible.antt =====
-- The sessions that belong to a user, and what the join computes.
use mathlib.Core.List.{flat_map}
use carqna_agent.Common.{
  ◌≡◌, ◌≢◌, refl, ap, sym, ◌∙◌, Bool, true, false, List, [], ◌∷◌, map, arith, ◌==◌, ==_iff, filter,
  any, filter-and, any-and, filter_none, All, every_one, Distinct, ◌⊎◌, inl, inr, Bool-cases,
  if◌then◌else◌,
}
use carqna_agent.PyText.{Text}
use carqna_agent.PyText.Laws.{text_eq_iff}
use carqna_agent.Database.{UserRow, StoredSession, Db, has_user, joins, joined}
use carqna_agent.Database.Invariant.{IsConsistent}

-- The session belongs to a registry row of the user.
abbrev pub owns : Text → List UserRow → StoredSession → Bool
owns user_id rs s = any (joins user_id s) rs

-- The user's own sessions, in the order of the table.
abbrev pub visible : Text → Db → List StoredSession
visible user_id db = filter (owns user_id db.user_registry) db.user_sessions

-- A user has at most one registry row.
pub registered_cases :
    (u : Text) (rs : List UserRow)
    → Distinct (λ r. r.user_id) rs
    → (filter (has_user u) rs ≡ [])
      ⊎ ((r : UserRow) × (filter (has_user u) rs ≡ r ∷ []) × (r.user_id ≡ u))
registered_cases u [] d = inl refl
registered_cases u (r ∷ rs) (n, d) = elim (Bool-cases (has_user u r)) [
  | inl e ↦
      let same = (text_eq_iff r.user_id u).0 e in
      inr (r, rw (e, filter_none (has_user u) rs (every_one _ _ rs n (other same))), same)
  | inr e ↦ rw e (registered_cases u rs d)
]
  where
    other : (r.user_id ≡ u) → (q : UserRow) → q.user_id ≢ r.user_id → has_user u q ≡ false
    other same q h = elim (Bool-cases (has_user u q)) [
      | inl e ↦ absurd (h ((text_eq_iff q.user_id u).0 e ∙ sym same))
      | inr e ↦ e
    ]

pub owns_registered :
    (u : Text) (rs : List UserRow) (s : StoredSession)
    → owns u rs s ≡ any (λ r. r.id == s.user_registry_id) (filter (has_user u) rs)
owns_registered u rs s = any-and (λ r. r.id == s.user_registry_id) (has_user u) rs

pub owns_one :
    (u : Text) (rs : List UserRow) (r : UserRow) (s : StoredSession)
    → filter (has_user u) rs ≡ r ∷ []
    → owns u rs s ≡ (r.id == s.user_registry_id)
owns_one u rs r s e = rw (owns_registered u rs s, e) (ground arith)

pub owns_none :
    (u : Text) (rs : List UserRow) (s : StoredSession)
    → filter (has_user u) rs ≡ []
    → owns u rs s ≡ false
owns_none u rs s e = rw (owns_registered u rs s, e) refl

join_row :
    (u : Text) (rs : List UserRow) (s : StoredSession)
    → Distinct (λ r. r.user_id) rs
    → map (λ r. s) (filter (joins u s) rs) ≡ (if owns u rs s then s ∷ [] else [])
join_row u rs s d =
    rw (filter-and (λ r. r.id == s.user_registry_id) (has_user u) rs)
      (elim (registered_cases u rs d) [
        | inl e ↦ rw (e, owns_none u rs s e)
        | inr (r, e, _) ↦ rw (e, owns_one u rs r s e) (ground arith)
      ])

join_rows :
    (u : Text) (rs : List UserRow) (ss : List StoredSession)
    → Distinct (λ r. r.user_id) rs
    → flat_map (λ s. map (λ r. s) (filter (joins u s) rs)) ss ≡ filter (owns u rs) ss
unfolding flat_map
join_rows u rs [] d = refl
join_rows u rs (s ∷ ss) d = elim (Bool-cases (owns u rs s)) [
  | inl e ↦ rw (e, join_row u rs s d, e) (ap (λ xs. s ∷ xs) (join_rows u rs ss d))
  | inr e ↦ rw (e, join_row u rs s d, e) (join_rows u rs ss d)
]

-- On tables that satisfy their constraints, the join gives each of the user's sessions once, in
-- the order of the table.
pub joined-eq-visible : (u : Text) {db : Db} → IsConsistent db → joined u db ≡ visible u db
unfolding joined
joined-eq-visible u {db} c = join_rows u db.user_registry db.user_sessions c.user_ids

none_elsewhere :
    (u : Text) (s : StoredSession) (rs : List UserRow)
    → All (λ r. r.id ≢ s.user_registry_id) rs
    → owns u rs s ≡ false
none_elsewhere u s [] h = refl
none_elsewhere u s (r ∷ rs) (n, h) = ground (arith, none_elsewhere u s rs h)

-- No session belongs to two users.
pub owner_unique :
    (u v : Text) (s : StoredSession) (rs : List UserRow)
    → Distinct (λ r. r.id) rs
    → owns u rs s ≡ true
    → owns v rs s ≡ true
    → u ≡ v
owner_unique u v s [] d h k = cc
owner_unique u v s (r ∷ rs) (n, d) h k = elim (Bool-cases (r.id == s.user_registry_id)) [
  | inl e ↦
      let away : All (λ q. q.id ≢ s.user_registry_id) rs =
        every_one _ _ rs n
          (λ q w (x : q.id ≡ s.user_registry_id). w (x ∙ sym ((==_iff _ _).0 e))) in
      ground (
        arith,
        none_elsewhere u s rs away,
        none_elsewhere v s rs away,
        text_eq_iff r.user_id u,
        text_eq_iff r.user_id v,
      )
  | inr e ↦ owner_unique u v s rs d (rw e at h) (rw e at k)
]
