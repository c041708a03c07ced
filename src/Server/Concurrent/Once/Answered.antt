-- ===== src/Server/Concurrent/Once/Answered.antt =====
-- Which turn of which request answers a session.
use carqna_agent.Common.{ℕ, ◌≡◌, ◌≢◌, ap, Option, some, none, arith, inl, inr, ◌⊎◌}
use carqna_agent.PyText.{Text}
use carqna_agent.Errors.{Result, returned, raised, value_error, unique_violation}
use carqna_agent.Database.{Db}
use carqna_agent.Database.Invariant.{IsConsistent}
use carqna_agent.Database.Pool.{Pool, IsTransactional}
use carqna_agent.Sessions.{SessionRow, create_session}
use carqna_agent.Tracking.{Profile, fetch_userinfo}
use carqna_agent.Auth.Context.{AuthContext}
use carqna_agent.Server.Routes.{
  Route, chat, sessions, new_session, health, Response, session, created_response,
}
use carqna_agent.Server.Concurrent.{
  Phase, arrived, unseen, profiled, tracked, answered, counted, profile_phase, count_block, look_up,
  finish, proceed,
}
use carqna_agent.Server.Concurrent.Once.New.{IsNew, create_session-IsNew}

created_response_session :
    (r : Result (Option SessionRow)) (row : SessionRow)
    → created_response r ≡ returned (session row)
    → r ≡ returned (some row)
created_response_session (returned (some q)) row e = cc
created_response_session (returned none) row e = cc
created_response_session (raised (value_error x)) row e = cc
created_response_session (raised unique_violation) row e = cc
created_response_session (raised _) row e = cc

-- Only POST /sessions answers a session, and it is the one that `create_session` has made.
finish_session :
    (pool : Pool) (now : ℕ) (route : Route) (u : Text) (db : Db) (row : SessionRow)
    → (finish pool now route u db).0 ≡ returned (session row)
    → (name : Text) × (create_session pool now u name db
        ≡ (returned (some row), (finish pool now route u db).1))
unfolding finish
finish_session pool now (chat thread_id) u db row e = absurd (ground arith)
finish_session pool now sessions u db row e = absurd (ground arith)
finish_session pool now (new_session name) u db row e =
    (name, cc (created_response_session (create_session pool now u name db).0 row e))
finish_session pool now health u db row e = cc

counted_no_answer : (r : Result ℕ) (x : Result Response) → counted r ≢ answered x
counted_no_answer (returned n) x e = ground arith
counted_no_answer (raised y) x e = cc

fetched_no_answer :
    (r : Result (Option Text × Option Text)) (x : Result Response) → profile_phase r ≢ answered x
fetched_no_answer (returned (email, name)) x e = cc
fetched_no_answer (raised y) x e = cc

look_up_no_session :
    (pool : Pool) (now : ℕ) (route : Route) (u : Text) (db : Db) (row : SessionRow)
    → (look_up pool now route u db).0 ≢ answered (returned (session row))
unfolding look_up
look_up_no_session pool now health u db row e = cc
look_up_no_session pool now _ u db row e =
    counted_no_answer (pool.connection ℕ (count_block now u) db).0 (returned (session row)) e

answer_of : Result Response → Phase → Result Response
answer_of r (answered x) = x
answer_of r _ = r

answered-injective : (r x : Result Response) → answered r ≡ answered x → r ≡ x
unfolding answer_of
answered-injective r x e = ap (answer_of r) e

-- What a turn of a request has answered, if it is a session.
pub answered_session :
    {pool : Pool} (http_get : Text → Text → Result Profile) (domain : Option Text) (now : ℕ)
    (phase : Phase) (ctx : AuthContext) (route : Route) (db : Db) (row : SessionRow)
    → IsTransactional pool
    → IsConsistent db
    → (proceed pool now http_get domain phase ctx route db).0 ≡ answered (returned (session row))
    → (phase ≡ answered (returned (session row)))
      ⊎ ((name : Text) × IsNew ctx.user_id name row db
            (proceed pool now http_get domain phase ctx route db).1)
unfolding proceed
answered_session {pool} http_get domain now arrived ctx route db row t c e =
    absurd (look_up_no_session pool now route ctx.user_id db row e)
answered_session {pool} http_get domain now unseen ctx route db row t c e =
    absurd (fetched_no_answer (fetch_userinfo http_get domain ctx.access_token) _ e)
answered_session {pool} http_get domain now (profiled email name) ctx route db row t c e = cc
answered_session {pool} http_get domain now tracked ctx route db row t c e =
    let (name, made) =
      finish_session pool now route ctx.user_id db row (answered-injective _ _ e) in
    inr (name, create_session-IsNew now ctx.user_id name db _ row t c made)
answered_session {pool} http_get domain now (answered r) ctx route db row t c e = inl e
