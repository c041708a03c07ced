-- ===== src/Server/Concurrent.antt =====
-- src/agent/copilotkit_server.py under load: requests that one process serves at once, as asyncio
-- interleaves them. A request gives way at each `await`, so a turn is what it does up to the next
-- one that talks to the database or to the identity provider.
--
-- In PostgreSQL's default isolation each statement reads what is committed and takes effect at once.
-- The block of `track_user` has two statements with a fetch in between; where its UPDATE finds no
-- row it has changed nothing, and where it finds one nothing follows it. So each block has one
-- statement with an effect, and a turn runs that one behind the pool. The pool and the time of a
-- turn are the schedule's: each block may fail on its own.
pub mod Turns
pub mod Safety
pub mod Names
pub mod Once
mod Tests
pub mod Progress
pub mod Creation
use carqna_agent.Common.{ℕ, Option, List, [], ◌∷◌, ◌==◌, if◌then◌else◌}
use carqna_agent.PyText.{Text}
use carqna_agent.PyText.Int.{parse_int}
use carqna_agent.Errors.{Result, returned, raised}
use carqna_agent.Errors.Action.{Action, lift, ◌>>=◌, ◌>>◌}
use carqna_agent.Database.{Db, update_last_seen, upsert_user}
use carqna_agent.Database.Pool.{Pool}
use carqna_agent.Sessions.{list_sessions, create_session, touch_session}
use carqna_agent.Tracking.{Profile, fetch_userinfo}
use carqna_agent.Auth.Context.{AuthContext}
use carqna_agent.Server.Routes.{
  Route, chat, sessions, new_session, health, Response, session_list, healthy, agent_name, stream,
  thread_key, session_id_of, created_response,
}

-- Where a request stands.
pub data Phase : Type 0 where
  -- in front of track_user's UPDATE
  arrived : Phase
  -- the UPDATE found no row: awaiting _fetch_userinfo
  unseen : Phase
  -- the profile is there: in front of the INSERT
  profiled : Option Text → Option Text → Phase
  -- track_user has returned: in front of the route's own statement
  tracked : Phase
  answered : Result Response → Phase

-- A request behind the middleware: its task has a context of its own.
pub record Request : Type 0 where
  pub context : AuthContext
  pub route : Route
  pub phase : Phase

-- The requests by number, and the tables that they share.
pub record Service : Type 0 where
  pub requests : ℕ → Request
  pub database : Db

pub record Turn : Type 1 where
  pub request : ℕ
  pub pool : Pool
  pub now : ℕ

-- await cur.execute("UPDATE user_registry …"), cur.rowcount
abbrev pub count_block : ℕ → Text → Db → Result ℕ × Db
count_block now user_id db =
    let (rowcount, db') = update_last_seen now user_id db in (returned rowcount, db')

-- await cur.execute("INSERT INTO user_registry …")
abbrev pub upsert_block : ℕ → Text → Option Text → Option Text → Db → Result (Unit {0}) × Db
upsert_block now user_id email name db = (returned tt, upsert_user now user_id email name db)

-- if cur.rowcount == 0, and the `except Exception` of track_user
abbrev pub counted : Result ℕ → Phase
counted (returned rowcount) = if rowcount == 0 then unseen else tracked
counted (raised e) = tracked

abbrev pub profile_phase : Result (Option Text × Option Text) → Phase
profile_phase (returned (email, name)) = profiled email name
profile_phase (raised e) = tracked

module _ (pool : Pool) (now : ℕ) where
  -- What the handlers do behind track_user.
  unfoldable pub finish : Route → Text → Action Db Response
  finish (chat thread_id) user_id = do
    session_id ← lift (session_id_of (parse_int thread_id))
    touch_session pool now user_id session_id
    lift (returned (stream (thread_key user_id thread_id)))
  finish sessions user_id = do
    rows ← list_sessions pool user_id
    lift (returned (session_list rows))
  finish (new_session name) user_id = λ db.
      let (created, db') = create_session pool now user_id name db in
      (created_response created, db')
  finish health user_id = lift (returned (healthy agent_name))

  -- The first statement; GET /health has none.
  unfoldable pub look_up : Route → Text → Db → Phase × Db
  look_up health user_id db = (answered (returned (healthy agent_name)), db)
  look_up _ user_id db =
      let (rowcount, db') = pool.connection ℕ (count_block now user_id) db in
      (counted rowcount, db')

  module _ (http_get : Text → Text → Result Profile) (domain : Option Text) where
    -- One turn of a request.
    unfoldable pub proceed : Phase → AuthContext → Route → Db → Phase × Db
    proceed arrived ctx route db = look_up route ctx.user_id db
    proceed unseen ctx route db =
        (profile_phase (fetch_userinfo http_get domain ctx.access_token), db)
    proceed (profiled email name) ctx route db =
        (tracked, (pool.connection (Unit {0}) (upsert_block now ctx.user_id email name) db).1)
    proceed tracked ctx route db =
        let (answer, db') = finish route ctx.user_id db in (answered answer, db')
    proceed (answered answer) ctx route db = (answered answer, db)

module _ (http_get : Text → Text → Result Profile) (domain : Option Text) where
  abbrev pub set_phase : ℕ → Phase → (ℕ → Request) → ℕ → Request
  set_phase n phase requests k =
      if k == n then record (requests k) { phase = phase } else requests k

  unfoldable pub take_turn : Turn → Service → Service
  take_turn t s =
      let r = s.requests t.request in
      let (phase, db) = proceed t.pool t.now http_get domain r.phase r.context r.route s.database in
      record { requests = set_phase t.request phase s.requests; database = db }

  -- A schedule: any turns of any requests, in any order.
  unfoldable pub run : List Turn → Service → Service
  run [] s = s
  run (t ∷ ts) s = run ts (take_turn t s)
