-- ===== src/Database/Invariant.antt =====
-- The constraints that the tables declare, and that every statement keeps them.
use carqna_agent.Common.{
  ℕ, ℤ, ◌+◌, ◌<◌, ◌≡◌, ◌≢◌, refl, ap, true, false, Option, List, [], ◌∷◌, map, arith, ◌==◌,
  if◌then◌else◌, any, any-false, any-map, All, All-map, every_one, Distinct, Distinct-map,
  Bool-cases, inl, inr,
}
use carqna_agent.PyText.{Text}
use carqna_agent.PyText.Laws.{text_eq_iff}
use carqna_agent.Errors.{Result, returned, raised}
use carqna_agent.Database.{
  UserRow, StoredSession, Db, has_user, seen, update_last_seen, upsert_user, taken, insert_session,
  touches, update_access_ts, insert_sessions, with_row, with_row,
}

-- user_sessions.user_registry_id REFERENCES user_registry(id)
abbrev pub Refers : List UserRow → StoredSession → Type 0
Refers rs s = any (λ r. r.id == s.user_registry_id) rs ≡ true

abbrev pub owner_and_name : StoredSession → ℕ × Text
owner_and_name s = (s.user_registry_id, s.session_name)

pub record IsConsistent (db : Db) : Type 0 where
  pub user_ids : Distinct (λ r. r.user_id) db.user_registry
  pub registry_ids : Distinct (λ r. r.id) db.user_registry
  pub users_below : All (λ r. r.id < db.next_user) db.user_registry
  pub session_ids : Distinct (λ s. s.id) db.user_sessions
  pub sessions_below : All (λ s. s.id < db.next_session) db.user_sessions
  pub names : Distinct owner_and_name db.user_sessions
  pub references : All (Refers db.user_registry) db.user_sessions

pub seen_keeps :
    (now : ℕ) (u : Text) (r : UserRow)
    → ((seen now u r).user_id ≡ r.user_id) × ((seen now u r).id ≡ r.id)
seen_keeps now u r = ground arith

references-seen :
    (now : ℕ) (u : Text) (rs : List UserRow) (ss : List StoredSession)
    → All (Refers rs) ss
    → All (Refers (map (seen now u) rs)) ss
references-seen now u rs ss h = every_one _ _ ss h λ s e.
    rw
      (any-map (λ r. r.id == s.user_registry_id) (seen now u) rs (λ r. rw ((seen_keeps now u r).1)))
      e

pub seen-IsConsistent :
    (now : ℕ) (u : Text) (n : ℕ) {db : Db}
    → IsConsistent db
    → IsConsistent (record db {
      user_registry = map (seen now u) db.user_registry;
      next_user = db.next_user + n;
    })
seen-IsConsistent now u n {db} c = record {
  user_ids =
      Distinct-map (λ r. r.user_id) (seen now u) db.user_registry (λ r. (seen_keeps now u r).0)
        c.user_ids;
  registry_ids =
      Distinct-map (λ r. r.id) (seen now u) db.user_registry (λ r. (seen_keeps now u r).1)
        c.registry_ids;
  users_below =
      All-map (λ r. r.id < db.next_user + n) (seen now u) db.user_registry
        (λ r h. rw ((seen_keeps now u r).1) h)
        (every_one _ _ db.user_registry c.users_below (λ r h. omega arith));
  session_ids = c.session_ids;
  sessions_below = c.sessions_below;
  names = c.names;
  references = references-seen now u db.user_registry db.user_sessions c.references;
}

-- UPDATE user_registry keeps the constraints.
pub update_last_seen-IsConsistent :
    (now : ℕ) (u : Text) {db : Db} → IsConsistent db → IsConsistent (update_last_seen now u db).1
unfolding update_last_seen
update_last_seen-IsConsistent now u {db} c = record {
  user_ids = (seen-IsConsistent now u 0 c).user_ids;
  registry_ids = (seen-IsConsistent now u 0 c).registry_ids;
  users_below =
      All-map (λ r. r.id < db.next_user) (seen now u) db.user_registry
        (λ r h. rw ((seen_keeps now u r).1) h) c.users_below;
  session_ids = c.session_ids;
  sessions_below = c.sessions_below;
  names = c.names;
  references = (seen-IsConsistent now u 0 c).references;
}

absent_user :
    (u : Text) (rs : List UserRow) → any (has_user u) rs ≡ false → All (λ r. r.user_id ≢ u) rs
absent_user u rs h =
    every_one _ _ rs (any-false (has_user u) rs h) (λ r e q. cc (e, (text_eq_iff r.user_id u).1 q))

-- INSERT … ON CONFLICT keeps the constraints, whether the user is there or not.
pub upsert_user-IsConsistent :
    (now : ℕ) (u : Text) (email name : Option Text) {db : Db}
    → IsConsistent db
    → IsConsistent (upsert_user now u email name db)
unfolding upsert_user
upsert_user-IsConsistent now u email name {db} c =
    elim (Bool-cases (any (has_user u) db.user_registry)) [
      | inl e ↦ rw e (seen-IsConsistent now u 1 c)
      | inr e ↦ rw e (record {
        user_ids = (absent_user u db.user_registry e, c.user_ids);
        registry_ids = (
          every_one _ _ db.user_registry c.users_below
              (λ r h. λ (q : r.id ≡ db.next_user). omega arith),
          c.registry_ids,
        );
        users_below =
            (omega arith, every_one _ _ db.user_registry c.users_below (λ r h. omega arith));
        session_ids = c.session_ids;
        sessions_below = c.sessions_below;
        names = c.names;
        references = every_one _ _ db.user_sessions c.references (λ s h. ground arith);
      })
    ]

taken_false :
    (rid : ℕ) (name : Text) (s : StoredSession)
    → taken rid name s ≡ false
    → ◌≢◌ {A = ℕ × Text} (owner_and_name s) (rid, name)
taken_false rid name s h e = ground (
  arith,
  ap (λ (p : ℕ × Text). p.0) e,
  (text_eq_iff s.session_name name).1 (ap (λ (p : ℕ × Text). p.1) e),
)

-- INSERT INTO user_sessions keeps the constraints, for a registered owner, with or without a
-- violation.
pub insert_session-IsConsistent :
    (now : ℕ) (name : Text) (rid : ℕ) {db : Db}
    → any (λ r. r.id == rid) db.user_registry ≡ true
    → IsConsistent db
    → IsConsistent (insert_session now name rid db).1
unfolding insert_session
insert_session-IsConsistent now name rid {db} known c =
    elim (Bool-cases (any (taken rid name) db.user_sessions)) [
      | inl e ↦ rw e (record {
        user_ids = c.user_ids;
        registry_ids = c.registry_ids;
        users_below = c.users_below;
        session_ids = c.session_ids;
        sessions_below = every_one _ _ db.user_sessions c.sessions_below (λ s h. omega arith);
        names = c.names;
        references = c.references;
      })
      | inr e ↦ rw e (record {
        user_ids = c.user_ids;
        registry_ids = c.registry_ids;
        users_below = c.users_below;
        session_ids = (
          every_one _ _ db.user_sessions c.sessions_below
              (λ s h. λ (q : s.id ≡ db.next_session). omega arith),
          c.session_ids,
        );
        sessions_below =
            (omega arith, every_one _ _ db.user_sessions c.sessions_below (λ s h. omega arith));
        names = (
          every_one _ _ db.user_sessions (any-false (taken rid name) db.user_sessions e)
              (taken_false rid name),
          c.names,
        );
        references = (known, c.references);
      })
    ]

abbrev pub touched : ℕ → Text → ℤ → List UserRow → StoredSession → StoredSession
touched now u sid rs s = if touches u sid rs s then record s { access_ts = now } else s

pub touched_keeps :
    (now : ℕ) (u : Text) (sid : ℤ) (rs : List UserRow) (s : StoredSession)
    → ((touched now u sid rs s).id ≡ s.id)
      × (owner_and_name (touched now u sid rs s) ≡ owner_and_name s)
      × ((touched now u sid rs s).user_registry_id ≡ s.user_registry_id)
touched_keeps now u sid rs s = elim (Bool-cases (touches u sid rs s)) [
  | inl e ↦ rw e (refl, refl, refl)
  | inr e ↦ rw e (refl, refl, refl)
]

-- UPDATE user_sessions keeps the constraints.
pub update_access_ts-IsConsistent :
    (now : ℕ) (u : Text) (sid : ℤ) {db : Db}
    → IsConsistent db
    → IsConsistent (update_access_ts now u sid db)
unfolding update_access_ts
update_access_ts-IsConsistent now u sid {db} c =
    let g = touched now u sid db.user_registry in
    let k = touched_keeps now u sid db.user_registry in
    record {
      user_ids = c.user_ids;
      registry_ids = c.registry_ids;
      users_below = c.users_below;
      session_ids = Distinct-map (λ s. s.id) g db.user_sessions (λ s. (k s).0) c.session_ids;
      sessions_below =
          All-map (λ s. s.id < db.next_session) g db.user_sessions (λ s h. rw ((k s).0) h)
            c.sessions_below;
      names = Distinct-map owner_and_name g db.user_sessions (λ s. (k s).1) c.names;
      references =
          All-map (Refers db.user_registry) g db.user_sessions (λ s h. rw ((k s).2) h) c.references;
    }

any_here :
    (rid : ℕ) (r : UserRow) (rs : List UserRow)
    → r.id ≡ rid
    → any (λ q. q.id == rid) (r ∷ rs) ≡ true
any_here rid r rs e = ground arith

pub registry-insert_session :
    (now : ℕ) (name : Text) (rid : ℕ) (db : Db)
    → (insert_session now name rid db).1.user_registry ≡ db.user_registry
unfolding insert_session
registry-insert_session now name rid db = ground arith

with_row-IsConsistent :
    (inserted : Result StoredSession) {db : Db} (rest : Result (List StoredSession) × Db)
    → IsConsistent db
    → IsConsistent rest.1
    → IsConsistent (with_row inserted db rest).1
with_row-IsConsistent (returned row) rest c k = k
with_row-IsConsistent (raised e) rest c k = c

-- The whole INSERT … SELECT keeps the constraints.
pub insert_sessions-IsConsistent :
    (now : ℕ) (name : Text) (rs : List UserRow) (db : Db)
    → All (λ r. any (λ q. q.id == r.id) db.user_registry ≡ true) rs
    → IsConsistent db
    → IsConsistent (insert_sessions now name rs db).1
unfolding insert_sessions
insert_sessions-IsConsistent now name [] db h c = c
insert_sessions-IsConsistent now name (r ∷ rs) db (h, hs) c =
    let db1 = (insert_session now name r.id db).1 in
    let c1 = insert_session-IsConsistent now name r.id h c in
    with_row-IsConsistent (insert_session now name r.id db).0 _ c1 (
      insert_sessions-IsConsistent now name rs db1
        (rw (registry-insert_session now name r.id db) hs) c1)
