-- ===== src/Sessions/Isolation.antt =====
-- What one user does to the sessions leaves those of every other user as they were.
use carqna_agent.Common.{
  ℕ, ℤ, ◌≡◌, ◌≢◌, refl, ◌∙◌, true, false, Option, List, [], ◌∷◌, arith, ◌==◌, ==_refl, filter,
  any-and, any-true_self, filter_passes, filter-map_same, map_same, All, every_one, Bool-cases, inl,
  inr, not, ◌||◌, ltb, length, nonempty,
}
use carqna_agent.PyText.{Text}
use carqna_agent.Errors.{Result, returned, raised}
use carqna_agent.Database.{
  UserRow, StoredSession, Db, has_user, insert_session, insert_sessions, with_row, update_access_ts,
  touches,
}
use carqna_agent.Database.Invariant.{IsConsistent, touched}
use carqna_agent.Database.Pool.{Pool, IsTransactional, SameRows, connection_elim}
use carqna_agent.Sessions.Block.{create_block_keeps}
use mathlib.Core.Path.{subst, ap}
use carqna_agent.Sessions.{create_block, touch_block, create_session, touch_session}
use carqna_agent.Sessions.Visible.{owns, visible, owner_unique}

-- A session that would belong to the registry row.
abbrev probe : UserRow → StoredSession
probe r = record { id = 0; user_registry_id = r.id; session_name = []; access_ts = 0 }

module _ (u v : Text) (differ : u ≢ v) where
  foreign_rows :
      {db : Db}
      → IsConsistent db
      → All (λ r. owns v db.user_registry (probe r) ≡ false) (filter (has_user u) db.user_registry)
  foreign_rows {db} c =
      every_one _ _ (filter (has_user u) db.user_registry)
        (any-true_self (λ r q. q.id == r.id) (λ r. ==_refl r.id)
          (filter (has_user u) db.user_registry))
        λ r h. elim (Bool-cases (owns v db.user_registry (probe r))) [
          | inr e ↦ e
          | inl e ↦ absurd (
              differ (
                owner_unique u v (probe r) db.user_registry c.registry_ids
                  (any-and (λ q. q.id == r.id) (has_user u) db.user_registry ∙ h) e))
        ]

  insert_session-visible_ne :
      (now : ℕ) (name : Text) (r : UserRow) (db : Db)
      → owns v db.user_registry (probe r) ≡ false
      → (visible v (insert_session now name r.id db).1 ≡ visible v db)
        × ((insert_session now name r.id db).1.user_registry ≡ db.user_registry)
  unfolding insert_session
  insert_session-visible_ne now name r db h = ground arith

  with_row-visible :
      (inserted : Result StoredSession) (db d : Db) (rest : Result (List StoredSession) × Db)
      → visible v d ≡ visible v db
      → visible v rest.1 ≡ visible v d
      → visible v (with_row inserted d rest).1 ≡ visible v db
  with_row-visible (returned row) db d rest e f = f ∙ e
  with_row-visible (raised x) db d rest e f = e

  insert_sessions-visible_ne :
      (now : ℕ) (name : Text) (rs : List UserRow) (db : Db)
      → All (λ r. owns v db.user_registry (probe r) ≡ false) rs
      → visible v (insert_sessions now name rs db).1 ≡ visible v db
  unfolding insert_sessions
  insert_sessions-visible_ne now name [] db h = refl
  insert_sessions-visible_ne now name (r ∷ rs) db (h, hs) =
      let (same, kept) = insert_session-visible_ne now name r db h in
      let d = (insert_session now name r.id db).1 in
      with_row-visible (insert_session now name r.id db).0 db d _ same
        (insert_sessions-visible_ne now name rs d (rw kept hs))

  SameRows-visible : {db db' : Db} → SameRows db db' → visible v db' ≡ visible v db
  SameRows-visible s = rw (s.registry, s.sessions) refl

  -- Behind a transactional pool, on tables that satisfy their constraints: creating a session,
  -- however it ends, leaves the sessions that every other user sees.
  pub create_session-visible_ne :
      (pool : Pool) (now : ℕ) (name : Text) (db : Db)
      → IsTransactional pool
      → IsConsistent db
      → visible v (create_session pool now u name db).1 ≡ visible v db
  unfolding create_session
  create_session-visible_ne pool now name db t c =
      elim (Bool-cases (not (nonempty name) || ltb 256 (length name))) [
        | inl e ↦ rw e refl
        | inr e ↦ rw e (
            connection_elim t (Option StoredSession) (create_block now u name) db
              (λ r d. visible v d ≡ visible v db) (λ x d s. SameRows-visible s)
              (λ a d q.
                subst (λ d. visible v d ≡ visible v db) (ap (λ x. x.1) q)
                  (create_block_keeps (λ d. visible v d ≡ visible v db) now u name db refl
                    (insert_sessions-visible_ne now name _ db (foreign_rows c)))))
      ]

  untouched :
      (now : ℕ) (sid : ℤ) (rs : List UserRow) (s : StoredSession)
      → (owns u rs s ≡ true → owns v rs s ≡ true → ⊥)
      → owns v rs s ≡ true
      → touched now u sid rs s ≡ s
  untouched now sid rs s never h = elim (Bool-cases (touches u sid rs s)) [
    | inl e ↦ absurd (never (ground arith) h)
    | inr e ↦ rw e refl
  ]

  owns-touched :
      (now : ℕ) (sid : ℤ) (rs : List UserRow) (s : StoredSession)
      → owns v rs (touched now u sid rs s) ≡ owns v rs s
  owns-touched now sid rs s = elim (Bool-cases (touches u sid rs s)) [
    | inl e ↦ rw e refl
    | inr e ↦ rw e refl
  ]

  update_access_ts-visible_ne :
      (now : ℕ) (sid : ℤ) {db : Db}
      → IsConsistent db
      → visible v (update_access_ts now u sid db) ≡ visible v db
  unfolding update_access_ts
  update_access_ts-visible_ne now sid {db} c =
      let rs = db.user_registry in
      filter-map_same (owns v rs) (touched now u sid rs) db.user_sessions
        (λ s. owns-touched now sid rs s)
      ∙ map_same (touched now u sid rs) (visible v db) (
          every_one _ _ (visible v db) (filter_passes (owns v rs) db.user_sessions) (λ s h.
            untouched now sid rs s (λ hu hv. differ (owner_unique u v s rs c.registry_ids hu hv))
              h))

  -- Behind a transactional pool, on tables that satisfy their constraints: touching any session
  -- id, however it ends, leaves the sessions that every other user sees.
  pub touch_session-visible_ne :
      (pool : Pool) (now : ℕ) (sid : ℤ) (db : Db)
      → IsTransactional pool
      → IsConsistent db
      → visible v (touch_session pool now u sid db).1 ≡ visible v db
  unfolding touch_session
  touch_session-visible_ne pool now sid db t c =
      connection_elim t (Unit {0}) (touch_block now u sid) db (λ r d. visible v d ≡ visible v db)
        (λ x d s. SameRows-visible s) (λ a d q. cc (q, update_access_ts-visible_ne now sid c))
