-- ===== src/Server/Routes.antt =====
-- The route handlers of src/agent/copilotkit_server.py, and the application that the middleware wraps.
-- FastAPI's routing and body parsing have found the handler already: a `Route` is what they pass on.
use carqna_agent.Common.{ℕ, ℤ, Option, none, some, List, ◌++◌}
use carqna_agent.PyText.{Text, codes}
use carqna_agent.PyText.Int.{parse_int}
use carqna_agent.Errors.{
  Exception, Result, returned, raised, value_error, http_exception, unique_violation,
}
use carqna_agent.Errors.Action.{Action, lift, ◌>>=◌, ◌>>◌}
use carqna_agent.Database.{Db}
use carqna_agent.Database.Pool.{Pool}
use carqna_agent.Sessions.{SessionRow, list_sessions, create_session, touch_session}
use carqna_agent.Tracking.{Profile, track_user}
use carqna_agent.Auth.Context.{Ctx, get_current_user_id, get_current_access_token}
use carqna_agent.Auth.Verify.{Jwt}
use carqna_agent.Auth.Middleware.{Scope, World, call}

pub data Route : Type 0 where
  -- POST /, with the AG-UI thread_id
  chat : Text → Route
  -- GET /sessions
  sessions : Route
  -- POST /sessions, with the session_name
  new_session : Text → Route
  -- GET /health
  health : Route

pub data Response : Type 0 where
  -- JSONResponse({"detail": …}, status)
  detail : ℕ → Text → Response
  session_list : List SessionRow → Response
  session : SessionRow → Response
  -- {"status": "ok", "agent": {"name": …}}
  healthy : Text → Response
  -- the StreamingResponse of an agent run on a checkpoint thread
  stream : Text → Response

-- f"{user_id}:{thread_id}"
unfoldable pub thread_key : Text → Text → Text
thread_key user_id thread_id = user_id ++ (codes ":" ++ thread_id)

-- The name that LangGraphAGUIAgent(name=…) is given.
abbrev pub agent_name : Text
agent_name = codes "carqna_agent"

abbrev pub path_of : Route → Text
path_of (chat thread_id) = codes "/"
path_of sessions = codes "/sessions"
path_of (new_session name) = codes "/sessions"
path_of health = codes "/health"

-- The handlers' `except` clauses and the test on `None`.
abbrev pub created_response : Result (Option SessionRow) → Result Response
created_response (returned (some row)) = returned (session row)
created_response (returned none) = raised (http_exception 500 (codes "Failed to create session"))
created_response (raised (value_error e)) = raised (http_exception 400 e)
created_response (raised unique_violation) =
    raised (http_exception 409 (codes "A session with that name already exists"))
created_response (raised e) = raised e

abbrev pub bad_thread : Exception
bad_thread = http_exception 400 (codes "thread_id must be a valid session id")

-- int(input_data.thread_id), with the handler's `except (TypeError, ValueError)`
abbrev pub session_id_of : Option ℤ → Result ℤ
session_id_of none = raised bad_thread
session_id_of (some z) = returned z

-- `now` is the time at which the statements of the request run.
module _ (http_get : Text → Text → Result Profile) (domain : Option Text) (pool : Pool)
    (now : ℕ) where
  -- The handlers' common beginning: the identity, and await track_user(…).
  unfoldable pub identified : Ctx → Action Db Text
  identified ctx = do
    user_id ← lift (get_current_user_id ctx)
    access_token ← lift (get_current_access_token ctx)
    track_user http_get domain pool now user_id access_token
    lift (returned user_id)

  unfoldable pub langgraph_agent_endpoint : Ctx → Text → Action Db Response
  langgraph_agent_endpoint ctx thread_id = do
    user_id ← identified ctx
    session_id ← lift (session_id_of (parse_int thread_id))
    touch_session pool now user_id session_id
    lift (returned (stream (thread_key user_id thread_id)))

  unfoldable pub list_sessions_endpoint : Ctx → Action Db Response
  list_sessions_endpoint ctx = do
    user_id ← identified ctx
    rows ← list_sessions pool user_id
    lift (returned (session_list rows))

  unfoldable pub create_session_endpoint : Ctx → Text → Action Db Response
  create_session_endpoint ctx session_name = do
    user_id ← identified ctx
    λ db.
        let (created, db') = create_session pool now user_id session_name db in
        (created_response created, db')

  unfoldable pub handle : Route → Ctx → Action Db Response
  handle (chat thread_id) ctx = langgraph_agent_endpoint ctx thread_id
  handle sessions ctx = list_sessions_endpoint ctx
  handle (new_session name) ctx = create_session_endpoint ctx name
  handle health ctx = lift (returned (healthy agent_name))

  -- The application behind the middleware.
  abbrev pub app : Route → Scope → World Db → Result Response × World Db
  app route scope w =
      let (answer, db) = handle route w.context w.state in (answer, record w { state = db })

abbrev pub scope_of : Route → Option Text → Scope
scope_of route authorization = record {
  kind = codes "http";
  path = path_of route;
  authorization = authorization;
}

-- One request, through the middleware. An HTTPException that a handler raises is left as such, for
-- FastAPI to answer.
unfoldable pub serve :
    (Text → Text → Result Profile)
    → Jwt
    → Option Text
    → Option Text
    → Pool
    → ℕ
    → Route
    → Option Text
    → World Db
    → Result Response × World Db
serve http_get jwt domain audience pool now route authorization w =
    call detail jwt domain audience (app http_get domain pool now route)
      (scope_of route authorization) w
