-- ===== src/Sessions/Creation.antt =====
-- `create_session` against its contract: what it returns, and what the caller can then see.
use carqna_agent.Common.{
  ℕ, ◌+◌, ◌≡◌, refl, ap, sym, ◌∙◌, Bool, true, false, Option, none, some, List, [], ◌∷◌, map, arith,
  ◌==◌, ==_refl, filter, any, Bool-cases, inl, inr, if◌then◌else◌, not, ◌||◌, ltb, length, nonempty,
}
use carqna_agent.PyText.{Text, text_eq}
use carqna_agent.Errors.{Result, returned, raised, value_error, unique_violation}
use carqna_agent.Database.{
  UserRow, StoredSession, Db, has_user, insert_session, insert_sessions, taken,
}
use carqna_agent.Database.Invariant.{IsConsistent}
use carqna_agent.Database.Pool.{
  Pool, IsTransactional, IsUp, SameRows, connection_raises, connection_of_IsUp,
}
use carqna_agent.Sessions.{
  SessionRow, session_row, bad_name, nul_error, create_block, create_session,
}
use carqna_agent.Sessions.Visible.{owns, visible, registered_cases, owns_one}

abbrev pub has_name : Text → SessionRow → Bool
has_name name row = text_eq row.session_name name

abbrev pub is_bad_name : Text → Bool
is_bad_name name = not (nonempty name) || ltb 256 (length name)

abbrev pub is_unstorable : Text → Text → Bool
is_unstorable u name = any (λ c. c == 0) name || any (λ c. c == 0) u

-- The contract, in terms of what the caller can see: their rows, whether they are registered, and
-- the next id.
-- `unstorable`: the name or the user id has a character that PostgreSQL cannot store.
abbrev pub answer : ℕ → Text → Bool → ℕ → Bool → List SessionRow → Result (Option SessionRow)
answer now name unstorable id registered mine =
    if is_bad_name name
    then raised (value_error bad_name)
    else if unstorable
    then raised nul_error
    else if not registered
    then returned none
    else if any (has_name name) mine
    then raised unique_violation
    else returned (some (record { id = id; session_name = name; access_ts = now }))

-- The caller's rows after an answer.
abbrev pub rows_after : Result (Option SessionRow) → List SessionRow → List SessionRow
rows_after (returned (some row)) mine = row ∷ mine
rows_after (returned none) mine = mine
rows_after (raised e) mine = mine

abbrev pub mine : Text → Db → List SessionRow
mine u db = map session_row (visible u db)

abbrev pub is_registered : Text → Db → Bool
is_registered u db = nonempty (filter (has_user u) db.user_registry)

-- The row that the INSERT makes for the registry row `rid`, and the tables with it.
abbrev new_session : ℕ → Text → ℕ → Db → StoredSession
new_session now name rid db = record {
  id = db.next_session;
  user_registry_id = rid;
  session_name = name;
  access_ts = now;
}

abbrev with_session : ℕ → Text → ℕ → Db → Db
with_session now name rid db = record db {
  user_sessions = new_session now name rid db ∷ db.user_sessions;
  next_session = db.next_session + 1;
}

-- For a user with one registry row, the unique index is read as "one of the user's own sessions has
-- that name".
taken-eq-has_name :
    (u name : Text) (r : UserRow) (rs : List UserRow) (ss : List StoredSession)
    → filter (has_user u) rs ≡ r ∷ []
    → any (taken r.id name) ss ≡ any (has_name name) (map session_row (filter (owns u rs) ss))
taken-eq-has_name u name r rs [] e = refl
taken-eq-has_name u name r rs (s ∷ ss) e =
    ground (arith, taken-eq-has_name u name r rs ss e, owns_one u rs r s e)

-- The answer and the caller's rows afterwards are those of the contract.
abbrev pub Meets : ℕ → Text → Text → Db → Result (Option SessionRow) → Db → Type 0
Meets now u name db r db' =
    (r ≡ answer now name (is_unstorable u name) db.next_session (is_registered u db) (mine u db))
    × (mine u db' ≡ rows_after r (mine u db))

module _ {pool : Pool} (t : IsTransactional pool) (up : IsUp pool) (now : ℕ) (u name : Text)
    (db : Db) where
  create_unregistered :
      is_bad_name name ≡ false
      → is_unstorable u name ≡ false
      → filter (has_user u) db.user_registry ≡ []
      → create_session pool now u name db ≡ (returned none, db)
  unfolding create_session insert_sessions
  create_unregistered good fine e =
      rw
        (
          good,
          connection_of_IsUp t (Option StoredSession) (create_block now u name) db up none db
              (rw (fine, e) refl),
        )
        refl

  create_unstorable :
      is_bad_name name ≡ false
      → is_unstorable u name ≡ true
      → Meets now u name db
          (create_session pool now u name db).0
          (create_session pool now u name db).1
  unfolding create_session
  create_unstorable good nul =
      let (refusal, same) =
        connection_raises t (Option StoredSession) (create_block now u name) db nul_error up
          (rw nul refl) in
      (
        rw good (rw refusal (rw nul refl)),
        rw good (rw (refusal, same.registry, same.sessions) refl),
      )

  module _ (r : UserRow) (registered : filter (has_user u) db.user_registry ≡ r ∷ []) where
    create_duplicate :
        is_bad_name name ≡ false
        → is_unstorable u name ≡ false
        → any (taken r.id name) db.user_sessions ≡ true
        → ((create_session pool now u name db).0 ≡ raised unique_violation)
          × SameRows db (create_session pool now u name db).1
    unfolding create_session insert_sessions insert_session
    create_duplicate good fine e =
        let (refusal, same) =
          connection_raises t (Option StoredSession) (create_block now u name) db unique_violation
            up (rw (fine, registered, e) refl) in
        rw good (rw refusal refl, same)

    create_fresh :
        is_bad_name name ≡ false
        → is_unstorable u name ≡ false
        → any (taken r.id name) db.user_sessions ≡ false
        → create_session pool now u name db ≡ (
          returned (some (session_row (new_session now name r.id db))),
          with_session now name r.id db,
        )
    unfolding create_session insert_sessions insert_session
    create_fresh good fine e =
        rw
          (
            good,
            connection_of_IsUp t (Option StoredSession) (create_block now u name) db up
                (some (new_session now name r.id db)) (with_session now name r.id db)
                (rw (fine, registered, e) refl),
          )
          refl

    visible-with_session :
        visible u (with_session now name r.id db) ≡ new_session now name r.id db ∷ visible u db
    visible-with_session =
        rw (owns_one u db.user_registry r (new_session now name r.id db) registered, ==_refl r.id)
          refl

    create_registered :
        is_bad_name name ≡ false
        → is_unstorable u name ≡ false
        → Meets now u name db
            (create_session pool now u name db).0
            (create_session pool now u name db).1
    create_registered good fine =
        let index = taken-eq-has_name u name r db.user_registry db.user_sessions registered in
        elim (Bool-cases (any (taken r.id name) db.user_sessions)) [
          | inl e ↦
              let (refusal, same) = create_duplicate good fine e in
              let clash : any (has_name name) (mine u db) ≡ true = sym index ∙ e in
              (
                refusal ∙ sym (rw (good, fine, registered, clash) refl),
                rw (refusal, same.registry, same.sessions) refl,
              )
          | inr e ↦
              let made = create_fresh good fine e in
              let free : any (has_name name) (mine u db) ≡ false = sym index ∙ e in
              (
                ap (λ x. x.0) made ∙ sym (rw (good, fine, registered, free) refl),
                rw (made, visible-with_session) refl,
              )
        ]

-- Behind a transactional pool that is up, on tables that satisfy their constraints,
-- `create_session` answers as its contract says for every name, the DataError of psycopg for a
-- U+0000 in the name or the user id included, and the rows that the caller sees afterwards are those
-- of the contract: the old ones, with the new row in front exactly when one was answered.
pub create_session_lem :
    (pool : Pool) (now : ℕ) (u name : Text) (db : Db)
    → IsTransactional pool
    → IsUp pool
    → IsConsistent db
    → Meets now u name db
        (create_session pool now u name db).0
        (create_session pool now u name db).1
create_session_lem pool now u name db t up c = elim (Bool-cases (is_bad_name name)) [
  | inl bad ↦ unfold create_session in rw bad (refl, refl)
  | inr good ↦ elim (Bool-cases (is_unstorable u name)) [
    | inl nul ↦ create_unstorable t up now u name db good nul
    | inr fine ↦ elim (registered_cases u db.user_registry c.user_ids) [
      | inl e ↦
          rw (create_unregistered t up now u name db good fine e) (rw (good, fine, e) refl, refl)
      | inr (r, e, _) ↦ create_registered t up now u name db r e good fine
    ]
  ]
]
