-- ===== src/Server/Concurrent/Once/New.antt =====
-- What `create_session` shows of the tables where it answers a row, behind any transactional pool.
use carqna_agent.Common.{
  ℕ, ◌≡◌, ◌≢◌, refl, Bool, true, false, Option, some, List, [], ◌∷◌, arith, Bool-cases, inl, inr,
  any, ==_refl,
}
use mathlib.Core.Option
use carqna_agent.PyText.{Text}
use carqna_agent.PyText.Laws.{text_eq_refl}
use carqna_agent.Errors.{Result, returned, raised, ◌>>=◌}
use carqna_agent.Database.{StoredSession, Db}
use carqna_agent.Database.Invariant.{IsConsistent}
use carqna_agent.Database.Pool.{
  Pool, IsTransactional, direct, direct-IsTransactional, direct-IsUp, connection_of_IsUp,
}
use carqna_agent.Sessions.{SessionRow, session_row, create_block, create_session}
use carqna_agent.Sessions.Creation.{
  is_bad_name, is_unstorable, has_name, answer, mine, is_registered, create_session_lem,
}
use carqna_agent.Server.Concurrent.Once.Kept.{is_row, Recorded}

-- What is known where `create_session` has answered a row: its name was free and is taken now.
pub record IsNew (u name : Text) (row : SessionRow) (db db' : Db) : Type 0 where
  pub named : row.session_name ≡ name
  pub free : any (has_name name) (mine u db) ≡ false
  pub there : Recorded u row db'

contract_row :
    (now : ℕ) (name : Text) (unstorable : Bool) (id : ℕ) (registered : Bool)
    (rows : List SessionRow) (row : SessionRow)
    → returned (some row) ≡ answer now name unstorable id registered rows
    → (row.session_name ≡ name) × (any (has_name name) rows ≡ false)
contract_row now name unstorable id registered rows row e = ground arith

-- A block that has returned behind a pool is the block that runs at once.
committed_row :
    {pool : Pool} (now : ℕ) (u name : Text) (db db' : Db) (row : SessionRow)
    → IsTransactional pool
    → (r : Result (Option StoredSession)) (d : Db)
    → pool.connection (Option StoredSession) (create_block now u name) db ≡ (r, d)
    → ◌≡◌ {A = Result (Option SessionRow) × Db}
        (r >>= λ o. returned (Option.map session_row o), d)
        (returned (some row), db')
    → is_bad_name name ≡ false
    → create_session direct now u name db ≡ (returned (some row), db')
unfolding create_session
committed_row now u name db db' row t (raised x) d q e good = cc
committed_row now u name db db' row t (returned o) d q e good =
    let run_at_once =
      connection_of_IsUp direct-IsTransactional (Option StoredSession) (create_block now u name) db
        direct-IsUp o d (t.committed (Option StoredSession) (create_block now u name) db d o q) in
    rw (good, run_at_once) e

as_direct :
    {pool : Pool} (now : ℕ) (u name : Text) (db db' : Db) (row : SessionRow)
    → IsTransactional pool
    → create_session pool now u name db ≡ (returned (some row), db')
    → create_session direct now u name db ≡ (returned (some row), db')
as_direct now u name db db' row t e = elim (Bool-cases (is_bad_name name)) [
  | inl bad ↦ unfold create_session in cc (rw bad at e)
  | inr good ↦
      unfold create_session in committed_row now u name db db' row t _ _ refl (rw good at e) good
]

pub create_session-IsNew :
    {pool : Pool} (now : ℕ) (u name : Text) (db db' : Db) (row : SessionRow)
    → IsTransactional pool
    → IsConsistent db
    → create_session pool now u name db ≡ (returned (some row), db')
    → IsNew u name row db db'
create_session-IsNew {pool} now u name db db' row t c e =
    let made = as_direct now u name db db' row t e in
    let (answers, rows) =
      create_session_lem direct now u name db direct-IsTransactional direct-IsUp c in
    let (named, free) =
      contract_row now name (is_unstorable u name) db.next_session (is_registered u db) (mine u db)
        row (rw made at answers) in
    let grown : mine u db' ≡ row ∷ mine u db = rw made at rows in
    record {
      named = named;
      free = free;
      there = rw grown (rw (==_refl row.id, text_eq_refl row.session_name) refl);
    }

-- What two answers of one user show.
pub new_name_ne :
    (u name : Text) (row old : SessionRow) (db db' : Db)
    → IsNew u name row db db'
    → Recorded u old db
    → row.session_name ≢ old.session_name
new_name_ne u name row old db db' new there same =
    cc (taken_name (mine u db) there, new.free, new.named, same)
  where
    taken_name :
        (rows : List SessionRow)
        → any (is_row old) rows ≡ true
        → any (has_name old.session_name) rows ≡ true
    taken_name [] h = h
    taken_name (q ∷ rows) h = ground (arith, taken_name rows)
