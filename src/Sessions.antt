-- ===== src/Sessions.antt =====
-- src/agent/sessions.py: a user's named conversation sessions. The caller's `user_id` is the verified
-- one; the pool is a parameter and `now` the time of the transaction.
pub mod Visible
pub mod Block
mod Tests
pub mod Consistency
pub mod Creation
pub mod Isolation
pub mod Listing
use mathlib.Core.Option
use carqna_agent.Common.{
  ℕ, ℤ, Bool, ◌||◌, not, ◌==◌, any, Option, none, some, List, [], ◌∷◌, map, ltb, length,
  if◌then◌else◌, filter, nonempty,
}
use carqna_agent.PyText.{Text, codes}
use carqna_agent.Errors.{Exception, Result, returned, raised, value_error, library_error, ◌>>=◌}
use carqna_agent.Database.{
  StoredSession, Db, has_user, sort_desc, joined, insert_sessions, update_access_ts,
}
use carqna_agent.Database.Pool.{Pool}

-- The `SessionRow` that callers see: no owner in it.
pub record SessionRow : Type 0 where
  pub id : ℕ
  pub session_name : Text
  pub access_ts : ℕ

abbrev pub session_row : StoredSession → SessionRow
session_row s = record { id = s.id; session_name = s.session_name; access_ts = s.access_ts }

-- cur.fetchone()
abbrev pub fetchone {ℓ} : {A : Type ℓ} → List A → Option A
fetchone [] = none
fetchone (x ∷ xs) = some x

abbrev pub list_block : Text → Db → Result (List StoredSession) × Db
list_block user_id db = (returned (sort_desc (joined user_id db)), db)

-- psycopg.DataError: the texts of PostgreSQL have no U+0000, and psycopg sends no statement with one.
abbrev pub nul_error : Exception
nul_error = library_error (codes "PostgreSQL text fields cannot contain NUL (0x00) bytes")

abbrev pub has_nul : Text → Bool
has_nul text = any (λ c. c == 0) text

abbrev pub create_block : ℕ → Text → Text → Db → Result (Option StoredSession) × Db
create_block now user_id session_name db =
    if has_nul session_name || has_nul user_id
    then (raised nul_error, db)
    else (let (inserted, db') =
          insert_sessions now session_name (filter (has_user user_id) db.user_registry) db in
        (inserted >>= λ rows. returned (fetchone rows), db'))

abbrev pub touch_block : ℕ → Text → ℤ → Db → Result (Unit {0}) × Db
touch_block now user_id session_id db = (returned tt, update_access_ts now user_id session_id db)

abbrev pub bad_name : Text
bad_name = codes "session_name must be non-empty and at most 256 characters"

-- except Exception: logger.warning(…)
abbrev pub log_only : Result (Unit {0}) → Result (Unit {0})
log_only (returned a) = returned a
log_only (raised e) = returned tt

module _ (pool : Pool) where
  unfoldable pub list_sessions : Text → Db → Result (List SessionRow) × Db
  list_sessions user_id db =
      let (fetched, db') = pool.connection (List StoredSession) (list_block user_id) db in
      (fetched >>= λ rows. returned (map session_row rows), db')

  unfoldable pub create_session : ℕ → Text → Text → Db → Result (Option SessionRow) × Db
  create_session now user_id session_name db =
      if not (nonempty session_name) || ltb 256 (length session_name)
      then (raised (value_error bad_name), db)
      else (let (fetched, db') =
            pool.connection (Option StoredSession) (create_block now user_id session_name) db in
          (fetched >>= λ row. returned (Option.map session_row row), db'))

  unfoldable pub touch_session : ℕ → Text → ℤ → Db → Result (Unit {0}) × Db
  touch_session now user_id session_id db =
      let (done, db') = pool.connection (Unit {0}) (touch_block now user_id session_id) db in
      (log_only done, db')
