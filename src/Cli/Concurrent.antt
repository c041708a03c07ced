-- ===== src/Cli/Concurrent.antt =====
-- Several processes of src/agent/carqna_cli.py on one SQLite file: what `_get_or_create_session`
-- executes there, statement by statement, in any interleaving. An UPDATE or INSERT and the commit
-- behind it are one step, since SQLite's write lock keeps other writers out in between; the waiting
-- for that lock is not modelled.
pub mod Stages
pub mod Opened
pub mod Retry
pub mod Race
mod Tests
use carqna_agent.Common.{ℕ, ◌+◌, Option, none, some, List, [], ◌∷◌, map, ◌==◌, if◌then◌else◌}
use carqna_agent.PyText.{Text, codes}
use carqna_agent.Errors.{Exception, Result, returned, raised, library_error}
use carqna_agent.Cli.{Table, create_session_table, find_session, stamp}

-- Where a process is in `_get_or_create_session`.
pub data Stage : Type 0 where
  -- in front of CREATE TABLE IF NOT EXISTS
  waiting : Stage
  -- in front of the SELECT
  prepared : Stage
  -- the SELECT has found this: in front of the UPDATE, or of the INSERT
  selected : Option ℕ → Stage
  -- the commit is done, and the id is returned
  opened : ℕ → Stage
  -- a statement raised: main prints it and exits with 1
  failed : Exception → Stage

pub record Process : Type 0 where
  pub session_name : Text
  pub stage : Stage

pub record Machine : Type 0 where
  pub processes : ℕ → Process
  pub file : Option Table

-- sqlite3.IntegrityError
abbrev pub not_unique : Exception
not_unique = library_error (codes "UNIQUE constraint failed: sessions.session_name")

-- INSERT INTO sessions (session_name) VALUES (?), and lastrowid. The column is UNIQUE; a statement
-- that fails gives its id back to the counter.
abbrev pub insert_unless : Option ℕ → ℕ → Text → Table → Result ℕ × Table
insert_unless (some id) now name t = (raised not_unique, t)
insert_unless none now name t = (
  returned t.next_id,
  record {
    rows = record { session_id = t.next_id; session_name = name; access_ts = now } ∷ t.rows;
    next_id = t.next_id + 1;
  },
)

unfoldable pub insert_row : ℕ → Text → Table → Result ℕ × Table
insert_row now name t = insert_unless (find_session name t.rows) now name t

abbrev pub inserted_stage : Result ℕ → Stage
inserted_stage (returned id) = opened id
inserted_stage (raised e) = failed e

-- The next statement of a process; behind the first one the table is there.
unfoldable pub statement : ℕ → Text → Stage → Option Table → Stage × Option Table
statement now name waiting conn = (prepared, some (create_session_table conn))
statement now name prepared conn =
    (selected (find_session name (create_session_table conn).rows), conn)
statement now name (selected (some id)) conn =
    let t = create_session_table conn in
    (opened id, some (record t { rows = map (stamp now id) t.rows }))
statement now name (selected none) conn =
    let (done, t) = insert_row now name (create_session_table conn) in (inserted_stage done, some t)
statement now name (opened id) conn = (opened id, conn)
statement now name (failed e) conn = (failed e, conn)

abbrev pub set_stage : ℕ → Stage → (ℕ → Process) → ℕ → Process
set_stage n stage processes k =
    if k == n then record (processes k) { stage = stage } else processes k

-- The statement that process `n` executes at the time `now`.
unfoldable pub execute : ℕ → ℕ → Machine → Machine
execute n now m =
    let (stage, file) = statement now (m.processes n).session_name (m.processes n).stage m.file in
    record { processes = set_stage n stage m.processes; file = file }

-- A schedule: the processes whose turn it is, with the times, the first one first.
unfoldable pub execute_all : List (ℕ × ℕ) → Machine → Machine
execute_all [] m = m
execute_all ((n, now) ∷ turns) m = execute_all turns (execute n now m)
