-- ===== src/Database.antt =====
-- The tables of infrastructure/docker/postgres/initdb.d and the SQL statements that
-- src/agent/user_tracking.py and src/agent/sessions.py execute on them. A table is a bag of rows,
-- listed with the newest row in front. `now()` is an argument.
pub mod Invariant
pub mod Pool
pub mod Sample
use mathlib.Core.List.{flat_map}
use carqna_agent.Common.{
  ℕ, ◌+◌, ℤ, pos, negsuc, Bool, false, ◌&&◌, Option, List, [], ◌∷◌, map, ◌==◌, leb, length,
  if◌then◌else◌, filter, any,
}
use carqna_agent.PyText.{Text, text_eq}
use carqna_agent.Errors.{Result, returned, raised, unique_violation, ◌>>=◌}

pub record UserRow : Type 0 where
  pub id : ℕ
  pub user_id : Text
  pub email : Option Text
  pub name : Option Text
  pub first_seen_at : ℕ
  pub last_seen_at : ℕ

-- A row of `user_sessions`.
pub record StoredSession : Type 0 where
  pub id : ℕ
  pub user_registry_id : ℕ
  pub session_name : Text
  pub access_ts : ℕ

-- `next_user` and `next_session` are the identity sequences, which no rollback sets back.
pub record Db : Type 0 where
  pub user_registry : List UserRow
  pub next_user : ℕ
  pub user_sessions : List StoredSession
  pub next_session : ℕ

abbrev pub has_user : Text → UserRow → Bool
has_user user_id r = text_eq r.user_id user_id

abbrev pub seen : ℕ → Text → UserRow → UserRow
seen now user_id r = if has_user user_id r then record r { last_seen_at = now } else r

-- UPDATE user_registry SET last_seen_at = now() WHERE user_id = %s, with its row count
unfoldable pub update_last_seen : ℕ → Text → Db → ℕ × Db
update_last_seen now user_id db = (
  length (filter (has_user user_id) db.user_registry),
  record db { user_registry = map (seen now user_id) db.user_registry },
)

abbrev pub new_user : ℕ → Text → Option Text → Option Text → ℕ → UserRow
new_user now user_id email name id = record {
  id = id;
  user_id = user_id;
  email = email;
  name = name;
  first_seen_at = now;
  last_seen_at = now;
}

-- INSERT INTO user_registry … ON CONFLICT (user_id) DO UPDATE SET last_seen_at = now()
unfoldable pub upsert_user : ℕ → Text → Option Text → Option Text → Db → Db
upsert_user now user_id email name db =
    if any (has_user user_id) db.user_registry
    then record db {
      user_registry = map (seen now user_id) db.user_registry;
      next_user = db.next_user + 1;
    }
    else record db {
      user_registry = new_user now user_id email name db.next_user ∷ db.user_registry;
      next_user = db.next_user + 1;
    }

-- ORDER BY access_ts DESC; of equal times the first listed comes first
abbrev pub insert_desc : StoredSession → List StoredSession → List StoredSession
insert_desc s [] = s ∷ []
insert_desc s (t ∷ ts) = if leb t.access_ts s.access_ts then s ∷ t ∷ ts else t ∷ insert_desc s ts

unfoldable pub sort_desc : List StoredSession → List StoredSession
sort_desc [] = []
sort_desc (s ∷ ss) = insert_desc s (sort_desc ss)

-- JOIN user_registry r ON r.id = s.user_registry_id WHERE r.user_id = %s
abbrev pub joins : Text → StoredSession → UserRow → Bool
joins user_id s r = r.id == s.user_registry_id && has_user user_id r

unfoldable pub joined : Text → Db → List StoredSession
joined user_id db =
    flat_map (λ s. map (λ r. s) (filter (joins user_id s) db.user_registry)) db.user_sessions

abbrev pub taken : ℕ → Text → StoredSession → Bool
taken rid session_name s = s.user_registry_id == rid && text_eq s.session_name session_name

-- One row of the INSERT below; the sequence moves on before the unique index is read.
unfoldable pub insert_session : ℕ → Text → ℕ → Db → Result StoredSession × Db
insert_session now session_name rid db =
    let row : StoredSession = record {
      id = db.next_session;
      user_registry_id = rid;
      session_name = session_name;
      access_ts = now;
    } in
    if any (taken rid session_name) db.user_sessions
    then (raised unique_violation, record db { next_session = db.next_session + 1 })
    else (
      returned row,
      record db { user_sessions = row ∷ db.user_sessions; next_session = db.next_session + 1 },
    )

-- s.id = %s AND s.user_registry_id = r.id AND r.user_id = %s, for some row r
abbrev pub is_id : ℕ → ℤ → Bool
is_id n (pos m) = n == m
is_id n (negsuc m) = false

abbrev pub touches : Text → ℤ → List UserRow → StoredSession → Bool
touches user_id session_id rs s = is_id s.id session_id && any (joins user_id s) rs

abbrev pub with_row :
    Result StoredSession → Db → Result (List StoredSession) × Db → Result (List StoredSession) × Db
with_row (raised e) db rest = (raised e, db)
with_row (returned row) db rest = (rest.0 >>= λ rows. returned (row ∷ rows), rest.1)

-- INSERT INTO user_sessions … SELECT id, %s FROM user_registry WHERE user_id = %s RETURNING …: a row
-- for each registry row that is selected
unfoldable pub insert_sessions : ℕ → Text → List UserRow → Db → Result (List StoredSession) × Db
insert_sessions now session_name [] db = (returned [], db)
insert_sessions now session_name (r ∷ rs) db =
    let (inserted, db') = insert_session now session_name r.id db in
    with_row inserted db' (insert_sessions now session_name rs db')

-- UPDATE user_sessions s SET access_ts = now() FROM user_registry r
-- WHERE s.id = %s AND s.user_registry_id = r.id AND r.user_id = %s
unfoldable pub update_access_ts : ℕ → Text → ℤ → Db → Db
update_access_ts now user_id session_id db = record db {
  user_sessions =
      map
        (λ s.
          if touches user_id session_id db.user_registry s then record s { access_ts = now } else s)
        db.user_sessions;
}
