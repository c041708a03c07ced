-- ===== src/Cli.antt =====
-- src/agent/carqna_cli.py: the command line's own table of sessions, in a SQLite file. A connection
-- holds the table, if it has been created. Here one process runs at a time; the child Concurrent has
-- the statements of several processes, one by one.
pub mod Laws
pub mod Ids
pub mod Concurrent
pub mod Loop
pub mod Main
mod Tests
use carqna_agent.Common.{ℕ, ◌+◌, Option, none, some, List, [], ◌∷◌, map, ◌==◌, leb, if◌then◌else◌}
use carqna_agent.PyText.{Text, text_eq}

pub record CliSession : Type 0 where
  pub session_id : ℕ
  pub session_name : Text
  pub access_ts : ℕ

-- `next_id` is the AUTOINCREMENT counter, which no row's id has reached.
pub record Table : Type 0 where
  pub rows : List CliSession
  pub next_id : ℕ

-- CREATE TABLE IF NOT EXISTS sessions
unfoldable pub create_session_table : Option Table → Table
create_session_table none = record { rows = []; next_id = 1 }
create_session_table (some t) = t

-- SELECT session_id, session_name, access_ts FROM sessions ORDER BY access_ts DESC
abbrev pub insert_latest : CliSession → List CliSession → List CliSession
insert_latest s [] = s ∷ []
insert_latest s (t ∷ ts) =
    if leb t.access_ts s.access_ts then s ∷ t ∷ ts else t ∷ insert_latest s ts

abbrev pub latest_first : List CliSession → List CliSession
latest_first [] = []
latest_first (s ∷ ss) = insert_latest s (latest_first ss)

unfoldable pub list_cli_sessions : Option Table → List CliSession × Option Table
list_cli_sessions conn = let t = create_session_table conn in (latest_first t.rows, some t)

-- SELECT session_id FROM sessions WHERE session_name = ?, and fetchone()
unfoldable pub find_session : Text → List CliSession → Option ℕ
find_session name [] = none
find_session name (r ∷ rs) =
    if text_eq r.session_name name then some r.session_id else find_session name rs

-- UPDATE sessions SET access_ts = CURRENT_TIMESTAMP WHERE session_id = ?
abbrev pub stamp : ℕ → ℕ → CliSession → CliSession
stamp now id r = if r.session_id == id then record r { access_ts = now } else r

-- The two branches on the row that was found. Without another process the INSERT meets no row of that
-- name, since the SELECT in front of it found none.
abbrev pub get_or_insert : ℕ → Text → Table → Option ℕ → ℕ × Option Table
get_or_insert now name t (some id) = (id, some (record t { rows = map (stamp now id) t.rows }))
get_or_insert now name t none = (
  t.next_id,
  some (record {
    rows = record { session_id = t.next_id; session_name = name; access_ts = now } ∷ t.rows;
    next_id = t.next_id + 1;
  }),
)

unfoldable pub get_or_create_session : ℕ → Text → Option Table → ℕ × Option Table
get_or_create_session now name conn =
    let t = create_session_table conn in get_or_insert now name t (find_session name t.rows)
